-- ===== src/Intake/Delivered.antt =====
-- src/hosted/intake.ts: whose report a message may be.
use inbox_angel_worker.Common.{◌≤◌, ◌≡◌, Bool, true, false, some}
use inbox_angel_worker.Text.{Text}
use inbox_angel_worker.Intake.{charge}
use inbox_angel_worker.Intake.Address.{ParsedRecipient, ReportKind, parse_recipient}
use inbox_angel_worker.Intake.Mail.{
  Config, Message, Clock, Post, Outcome, delivered, Target, IntakeToken, is_current, shaped_tag,
  slot_of, kind_of, max_report_bytes,
}

-- A token of the address stands for the target, for now, and the message is charged to its allowance.
pub record IsAddressed (hash : Text → Text) (cfg : Config) (m : Message) (now : Clock) (p : Post)
    (kind : ReportKind) (target : Target) : Type 0 where
  pub rcpt : ParsedRecipient
  pub tag : Text
  pub token : IntakeToken
  pub parsed : parse_recipient m.to ≡ some rcpt
  pub is_kind : kind_of rcpt.base ≡ some kind
  pub tagged : shaped_tag rcpt.tag ≡ some tag
  pub current : is_current p.domains (hash tag) now.seconds token ≡ true
  pub same : target ≡ record { workspace = token.workspace; domain = token.domain }
  pub small : m.raw_size ≤ max_report_bytes
  pub charged :
      (charge cfg.limits cfg.well_known
        (slot_of now token)
        m.claimed
        m.raw_size
        m.reporter
        p.usage).0
      ≡ true

abbrev is_delivery : Outcome → Bool
is_delivery (delivered _ _) = true
is_delivery _ = false
