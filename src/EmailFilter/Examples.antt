-- ===== src/EmailFilter/Examples.antt =====
-- Rules about a message with an attached program.
use panmail.Base.{
  [], none, refl, some, true, ◌∷◌, Bool, map, ◌≡◌, not, ◌↔◌, ◌⊎◌, ℕ, ◌&&◌, get_elem?, ◌++◌, length,
}
use panmail.EmailFilter.{Message, Attachment, outbound, recipients, key_of, recipients_from}
use panmail.EmailFilter.Condition.{
  Condition, domain_matches, from, has_executable_attachment, domain_is, is_true, field_kind,
  is_domain_char, matches, kind_matches, any_value_matches, subject_matches, is_pattern,
  subjects_of, value_matches, compare_value,
}
use panmail.EmailFilter.Condition.Domain.{domain_matches_iff, IsWithin}
use panmail.EmailFilter.Recipients.{recipients-AreDistinct, AreDistinct}
use panmail.EmailFilter.Rule.{
  Rule, evaluate, applicable, decide, hold, allow, sort_rules, insert_rule, first_decision,
  rule_matches, matched_from,
}
use panmail.EmailFilter.Rule.First.{evaluate-IsDecisive, IsDecisive, Suits, taken}
use panmail.Base.Text.{
  Text, codes, has_substring, ◌==◌, to_lower, after_last, trim_space, trim, trim_left, trim_right,
  has_suffix, holds,
}
use panmail.Base.Int.{pos}

-- A pattern is a text to be found.
abbrev found_in : Text → Text → Bool
found_in p t = has_substring t p

abbrev program : Attachment
program = record {
  filename = codes "run.EXE";
  content_type = [];
  size = 10;
  data_bytes = [];
  text = [];
}

abbrev mail : Message
mail = record {
  from = codes "a@x.org";
  to = codes "B@y.org" ∷ codes " b@y.org" ∷ [];
  cc = [];
  bcc = [];
  subject = codes "hi";
  html = [];
  text = [];
  headers = [];
  attachments = program ∷ [];
  size = 100;
  provider_id = [];
  spf = [];
  dkim = [];
  dmarc = [];
}

abbrev has_program : Condition Text
has_program = record {
  field = has_executable_attachment;
  operator = is_true;
  values = [];
  header_name = [];
  number = pos 0;
  compiled = [];
}

abbrev from_x : Condition Text
from_x = record {
  field = from;
  operator = domain_is;
  values = codes "X.org" ∷ [];
  header_name = [];
  number = pos 0;
  compiled = [];
}

abbrev holding : Rule Text
holding = record {
  id = "1";
  tenant_id = "t";
  name = codes "programs";
  direction = outbound;
  action = hold;
  priority = pos 5;
  enabled = true;
  conditions = has_program ∷ [];
  exceptions = [];
  tag_label = [];
}

abbrev exempt : Rule Text
exempt = record holding { id = "2"; action = allow; priority = pos 1; conditions = from_x ∷ [] }

one_recipient : length (recipients mail) ≡ 1
unfolding recipients recipients_from to_lower trim_space trim trim_left trim_right ◌==◌
one_recipient = refl

exempted : (evaluate found_in (holding ∷ exempt ∷ []) outbound mail).action ≡ none
unfolding evaluate applicable sort_rules insert_rule first_decision rule_matches matched_from decide
    matches kind_matches field_kind any_value_matches subject_matches is_pattern subjects_of
    value_matches compare_value domain_matches after_last to_lower trim_space trim trim_left
    trim_right has_suffix ◌==◌
exempted = refl

evaluate-IsDecisive_example :
    ((r : Rule Text) × IsDecisive found_in outbound mail (holding ∷ exempt ∷ []) r
      × (evaluate found_in (holding ∷ exempt ∷ []) outbound mail
          ≡ record { action = taken r.action; rule = some r; matched = r.conditions }))
    ⊎ (((j : ℕ) (s : Rule Text)
          → get_elem? (holding ∷ exempt ∷ []) j ≡ some s
          → ¬ (Suits found_in outbound mail s))
        × (evaluate found_in (holding ∷ exempt ∷ []) outbound mail
            ≡ record { action = none; rule = none; matched = [] }))
evaluate-IsDecisive_example = evaluate-IsDecisive found_in outbound mail (holding ∷ exempt ∷ [])

recipients-AreDistinct_example :
    AreDistinct (recipients mail)
    × ((t : Text)
        → holds (map key_of (recipients mail)) t
          ≡ (not (t == []) && holds (map key_of (mail.to ++ mail.cc ++ mail.bcc)) t))
recipients-AreDistinct_example = recipients-AreDistinct mail

domain_matches_iff_example : (domain_matches (codes "a@mail.x.org") (codes "x.org") ≡ true) ↔ (
    (rest : Text) × (after_last 64 (codes "a@mail.x.org") ≡ some rest)
    × IsWithin (trim is_domain_char rest) (codes "x.org"))
domain_matches_iff_example = domain_matches_iff (codes "a@mail.x.org") (codes "x.org")
