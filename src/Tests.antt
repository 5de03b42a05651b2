-- ===== src/Tests.antt =====
-- A small world for the tests, and the tests of each part in the modules below.
pub mod IntentStore
pub mod Registry
pub mod Mcp
pub mod Broker
mod Helper
mod Devin
mod Recipient
mod Endpoint
use cross_agent_chat.Prelude.{
  ltb, if◌then◌else◌, ℕ, String, ◌≡◌, refl, true, Option, none, some, [], ◌∷◌,
}
use cross_agent_chat.Core.{Env}
use cross_agent_chat.Text.{Text, codes, is_hex64}

abbrev pub zeros : Text
zeros = codes "0000000000000000000000000000000000000000000000000000000000000000"

abbrev pub ones : Text
ones = codes "1111111111111111111111111111111111111111111111111111111111111111"

abbrev pub twos : Text
twos = codes "2222222222222222222222222222222222222222222222222222222222222222"

unfoldable pub read_stamp : Text → Option ℕ
read_stamp [] = none
read_stamp (t ∷ []) = some t
read_stamp (t ∷ u ∷ s) = none

unfoldable pub stamp : ℕ → Text
stamp t = t ∷ []

pub read_stamp-stamp : (t : ℕ) → read_stamp (stamp t) ≡ some t
unfolding read_stamp stamp
read_stamp-stamp t = refl

unfoldable pub letter : ℕ → String
letter c = if ltb c 32 then "Cc" else "Lu"

unfoldable pub digest : Text → Text
digest s = zeros

pub digest-is_hex64 : (s : Text) → is_hex64 (digest s) ≡ true
unfolding digest is_hex64
digest-is_hex64 s = refl

-- Control characters below the space, a time as one number, and one digest.
abbrev pub world : Env
world = record {
  category = letter;
  parse_time = read_stamp;
  iso_time = stamp;
  sha256 = digest;
  parse-iso_time = read_stamp-stamp;
  sha256-is_hex64 = digest-is_hex64;
}

abbrev pub event_1 : Text
event_1 = codes "00000000-0000-4000-8000-000000000001"

abbrev pub event_2 : Text
event_2 = codes "00000000-0000-4000-8000-000000000002"

abbrev pub generation_1 : Text
generation_1 = codes "aaaaaaaa-0000-4000-8000-000000000001"

abbrev pub generation_2 : Text
generation_2 = codes "bbbbbbbb-0000-4000-8000-000000000002"

-- Opens what the tests compute with.
unfoldable pub computes : Unit {0}
unfolding read_stamp stamp letter digest
computes = tt
