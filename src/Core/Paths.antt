-- ===== src/Core/Paths.antt =====
-- core.py `stored_cwd`, with `os.path.normpath` on absolute POSIX paths.
use cross_agent_chat.Prelude.{
  leb, eqb, if◌then◌else◌, length, any, ◌≡◌, refl, Bool, false, not, ◌&&◌, ◌||◌, List, [], ◌∷◌,
  ◌++◌, arith,
}
use cross_agent_chat.Core.{invalid, Result, err, ok, ◌>>◌, require}
use cross_agent_chat.Text.{Text, codes, ◌==◌}

-- `path.split("/")`
unfoldable pub split_slash : Text → List Text
split_slash [] = [] ∷ []
split_slash (c ∷ s) = elim (split_slash s) [
  | [] ↦ [] ∷ []
  | part ∷ parts ↦ if eqb c b'/' then [] ∷ part ∷ parts else (c ∷ part) ∷ parts
]

-- `"/".join(parts)`
unfoldable pub join_slash : List Text → Text
join_slash [] = []
join_slash (part ∷ parts) = elim parts [ [] ↦ part | _ ∷ _ ↦ part ++ (b'/' ∷ join_slash parts) ]

unfoldable pub drop_last : List Text → List Text
drop_last [] = []
drop_last (part ∷ parts) = elim parts [ [] ↦ [] | _ ∷ _ ↦ part ∷ drop_last parts ]

-- The loop of `normpath`, where the path is absolute: `done` are the components so far.
unfoldable pub normal_parts : List Text → List Text → List Text
unfolding drop_last
normal_parts done [] = done
normal_parts done (part ∷ parts) =
    normal_parts
      (if part == [] || part == codes "."
        then done
        else if part == codes ".."
        then drop_last done
        else done ++ part ∷ [])
      parts

-- Exactly two leading slashes stay two; any other number becomes one.
unfoldable pub leading_slashes : Text → Text
leading_slashes (a ∷ b ∷ c ∷ s) = if eqb b b'/' && not (eqb c b'/') then codes "//" else codes "/"
leading_slashes (a ∷ b ∷ []) = if eqb b b'/' then codes "//" else codes "/"
leading_slashes _ = codes "/"

unfoldable pub normpath : Text → Text
normpath s = leading_slashes s ++ join_slash (normal_parts [] (split_slash s))

-- `Path(value).is_absolute()`
unfoldable pub is_absolute : Text → Bool
is_absolute [] = false
is_absolute (c ∷ s) = eqb c b'/'

-- `stored_cwd`
unfoldable pub stored_cwd : Text → Result Text
stored_cwd value = do
  require (is_absolute value) (invalid "working directory")
  require (leb (length value) 512) (invalid "working directory")
  require (not (any (λ c. eqb c 0) value)) (invalid "working directory")
  require (normpath value == value) (invalid "working directory")
  ok value

-- A path that is stored is returned unchanged.
unfoldable pub is_stored_cwd : Text → Bool
is_stored_cwd value =
    (is_absolute value && leb (length value) 512)
    && (not (any (λ c. eqb c 0) value) && (normpath value == value))

pub stored_cwd_lem :
    (value : Text)
    → stored_cwd value
      ≡ (if is_stored_cwd value then ok value else err (invalid "working directory"))
unfolding stored_cwd is_stored_cwd
stored_cwd_lem value = ground arith

-- `Path(value).name`: the last component, where empty ones and `.` do not count.
unfoldable pub last_part : Text → List Text → Text
last_part found [] = found
last_part found (part ∷ parts) =
    last_part (if part == [] || part == codes "." then found else part) parts

unfoldable pub path_name : Text → Text
path_name s = last_part [] (split_slash s)

-- A text without a slash is one component.
pub split_slash-single : (s : Text) → any (λ c. eqb c b'/') s ≡ false → split_slash s ≡ s ∷ []
unfolding split_slash
split_slash-single [] h = refl
split_slash-single (c ∷ s) h = rw (split_slash-single s (ground arith)) (ground arith)
