-- ===== src/Intake/Address.antt =====
-- src/hosted/tokens.ts: the address that a report comes to.
use inbox_angel_worker.Common.{
  ℕ, Bool, true, ◌&&◌, ◌||◌, [], ◌∷◌, ◌++◌, Option, none, some, leb, ◌==◌, if◌then◌else◌, length,
}
use inbox_angel_worker.Text.{cut_last, Text, codes, to_lower, is_empty, cut}

pub record ParsedRecipient : Type 0 where
  pub base : Text
  pub tag : Option Text
  pub host : Text

abbrev pub token_length : ℕ
token_length = 32

abbrev pub is_token_code : ℕ → Bool
is_token_code c = leb b'a' c && leb c b'z' || leb b'2' c && leb c b'7'

abbrev pub all_token_codes : Text → Bool
all_token_codes [] = true
all_token_codes (c ∷ s) = is_token_code c && all_token_codes s

-- `TOKEN_RE`.
unfoldable pub is_token_shaped : Text → Bool
is_token_shaped token = length token == token_length && all_token_codes token

abbrev pub split_tag : Text → Text → Option (Text × Text) → ParsedRecipient
split_tag local host none = record { base = local; tag = none; host = host }
split_tag local host (some (base, tag)) = record { base = base; tag = some tag; host = host }

abbrev pub recipient_of : Option (Text × Text) → Option ParsedRecipient
recipient_of none = none
recipient_of (some (local, host)) =
    if is_empty local || is_empty host
    then none
    else some (split_tag (to_lower local) (to_lower host) (cut b'+' (to_lower local)))

unfoldable pub parse_recipient : Text → Option ParsedRecipient
parse_recipient to = recipient_of (cut_last b'@' to)

pub data ReportKind : Type 0 where
  rua tls_rpt : ReportKind

abbrev pub kind_text : ReportKind → Text
kind_text rua = codes "rua"
kind_text tls_rpt = codes "tls-rpt"

abbrev pub intake_address : ReportKind → Text → Text → Text
intake_address kind token domain = kind_text kind ++ codes "+" ++ token ++ codes "@" ++ domain
