-- ===== src/EmailFilter.antt =====
-- internal/emailfilter/message.go: what a rule can ask about a message.
--
-- Texts are byte lists. A size is a count of bytes, and sums of sizes stay below 2 ^ 63. A header
-- map is a list of entries with distinct keys.
mod Examples
pub mod Review
pub mod Recipients
pub mod Condition
pub mod Rule
use panmail.Base.{
  ◌==◌ as nat_eq, [], false, if◌then◌else◌, true, ◌∷◌, Bool, List, ℕ, String, any, ltb, ◌++◌, ◌+◌,
  ◌||◌,
}
use panmail.Base.Text.{Text, codes, to_lower, trim_space, ◌==◌, holds}

pub data Direction : Type 0 where
  outbound inbound : Direction
  other_direction : Text → Direction

unfoldable pub is_direction : Direction → Bool
is_direction outbound = true
is_direction inbound = true
is_direction (other_direction t) = false

pub record Attachment : Type 0 where
  pub filename : Text
  pub content_type : Text
  pub size : ℕ
  pub data_bytes : Text
  pub text : Text

-- `filepath.Ext`: from the last dot on, if no slash follows it.
unfoldable pub path_ext : Text → Text → Text
path_ext found [] = found
path_ext found (c ∷ s) =
    path_ext (if nat_eq c 46 then c ∷ s else if nat_eq c 47 then [] else found) s

-- `strings.TrimPrefix(ext, ".")`
abbrev pub without_dot : Text → Text
without_dot [] = []
without_dot (c ∷ s) = if nat_eq c 46 then s else c ∷ s

unfoldable pub extension : Attachment → Text
extension a = without_dot (to_lower (path_ext [] a.filename))

abbrev pub executable_extensions : List String
executable_extensions =
    "exe" ∷ "com" ∷ "bat" ∷ "cmd" ∷ "msi" ∷ "scr" ∷ "pif" ∷ "cpl" ∷ "jar" ∷ "js" ∷ "jse" ∷ "vbs"
    ∷ "vbe" ∷ "wsf" ∷ "wsh" ∷ "ps1" ∷ "psm1" ∷ "sh" ∷ "bash" ∷ "app" ∷ "dmg" ∷ "pkg" ∷ "deb" ∷ "rpm"
    ∷ "apk" ∷ "dll" ∷ "so" ∷ "reg" ∷ "lnk" ∷ "hta" ∷ "chm" ∷ "iso" ∷ "img" ∷ "vhd" ∷ []

unfoldable pub is_executable : Attachment → Bool
is_executable a = any (λ e. codes e == extension a) executable_extensions

pub record Message : Type 0 where
  pub from : Text
  pub to : List Text
  pub cc : List Text
  pub bcc : List Text
  pub subject : Text
  pub html : Text
  pub text : Text
  pub headers : List (Text × List Text)
  pub attachments : List Attachment
  pub size : ℕ
  pub provider_id : Text
  pub spf : Text
  pub dkim : Text
  pub dmarc : Text

abbrev pub key_of : Text → Text
key_of address = to_lower (trim_space address)

-- The loop of `Recipients` with its `seen` and `out`.
unfoldable pub recipients_from : List Text → List Text → List Text → List Text
recipients_from seen out [] = out
recipients_from seen out (address ∷ rest) =
    let key = key_of address in
    let skip = key == [] || holds seen key in
    recipients_from (if skip then seen else key ∷ seen) (if skip then out else out ++ address ∷ [])
      rest

unfoldable pub recipients : Message → List Text
recipients m = recipients_from [] [] (m.to ++ m.cc ++ m.bcc)

abbrev pub values_of : Text → List (Text × List Text) → List Text
values_of name [] = []
values_of name ((k, values) ∷ rest) = if k == name then values else values_of name rest

unfoldable pub header : Message → Text → List Text
header m name = values_of (key_of name) m.headers

unfoldable pub total_attachment_size : List Attachment → ℕ
total_attachment_size [] = 0
total_attachment_size (a ∷ rest) = a.size + total_attachment_size rest

-- The loop of `LargestAttachment` with its `largest`.
unfoldable pub largest_from : ℕ → List Attachment → ℕ
largest_from largest [] = largest
largest_from largest (a ∷ rest) = largest_from (if ltb largest a.size then a.size else largest) rest

unfoldable pub largest_attachment : Message → ℕ
largest_attachment m = largest_from 0 m.attachments
