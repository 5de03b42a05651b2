-- ===== src/Core/StateFile.antt =====
-- A private state file of core.py as a reader finds it, and `atomic_json`. A write replaces the
-- file as a whole, so a reader never sees a part of one.
use cross_agent_chat.Prelude.{
  All, ◌≡◌, refl, sym, ◌∙◌, subst, Bool, true, false, Option, none, some, List, [], ◌∷◌, map,
}
use cross_agent_chat.Core.{Error, message, Result, err, ok, ◌>>=◌, >>=-ok, ok-injective}
use cross_agent_chat.Json.{Json, arr, to_list, of_list, to_list-of_list}

-- `present is_private content`: whether `require_private_file` accepts the file, and what its
-- text decodes to, `none` for what is not JSON.
pub data StateFile : Type 0 where
  absent : StateFile
  present : Bool → Option Json → StateFile

-- `require_private_file(path)`, `json.loads(path.read_text())` and the test for a list.
unfoldable pub read_rows : StateFile → Error → Error → Result (List Json)
unfolding to_list
read_rows absent bad_text bad_shape = ok []
read_rows (present false content) bad_text bad_shape = err (message "private file is unsafe")
read_rows (present true none) bad_text bad_shape = err bad_text
read_rows (present true (some (arr items))) bad_text bad_shape = ok (to_list items)
read_rows (present true (some other)) bad_text bad_shape = err bad_shape

-- `atomic_json(path, rows)`
unfoldable pub atomic_json : List Json → StateFile
unfolding of_list
atomic_json rows = present true (some (arr (of_list rows)))

pub read_rows-atomic_json :
    (rows : List Json) (bad_text bad_shape : Error)
    → read_rows (atomic_json rows) bad_text bad_shape ≡ ok rows
unfolding read_rows atomic_json
read_rows-atomic_json rows bad_text bad_shape = rw to_list-of_list

-- `[f(item) for item in raw]`, where `f` may reject.
unfoldable pub map_ok {ℓ κ} : {A : Type ℓ} {B : Type κ} → (A → Result B) → List A → Result (List B)
map_ok f [] = ok []
map_ok f (x ∷ xs) = do y ← f x; ys ← map_ok f xs; ok (y ∷ ys)

pub map_ok-map {ℓ κ ι} :
    {A : Type ℓ} {B : Type κ} (P : B → Type ι) (f : A → Result B) (g : B → A)
    → ((b : B) → P b → f (g b) ≡ ok b)
    → (bs : List B) → All P bs
    → map_ok f (map g bs) ≡ ok bs
unfolding map_ok
map_ok-map P f g inverse [] h = refl
map_ok-map P f g inverse (b ∷ bs) h = rw (inverse b h.0, map_ok-map P f g inverse bs h.1)

pub map_ok-All {ℓ κ ι} :
    {A : Type ℓ} {B : Type κ} (P : B → Type ι) (f : A → Result B)
    → ((a : A) (b : B) → f a ≡ ok b → P b)
    → (as' : List A) (bs : List B) → map_ok f as' ≡ ok bs
    → All P bs
unfolding map_ok
map_ok-All {A = A} {B = B} P f good [] bs h = subst (All P) (ok-injective h) tt
map_ok-All {A = A} {B = B} P f good (a ∷ as') bs h =
    let (y, hy, h₁) = >>=-ok (f a) (λ (y : B). map_ok f as' >>= λ (ys : List B). ok (y ∷ ys)) h in
    let (ys, hys, h₂) = >>=-ok (map_ok f as') (λ (ys : List B). ok (y ∷ ys)) h₁ in
    subst (All P) (ok-injective h₂) (good a y hy, map_ok-All P f good as' ys hys)

-- What is read from what was written is what was written, where each row reads as itself or not.
pub map_ok_exact {ℓ κ} :
    {A : Type ℓ} {B : Type κ} (f : A → Result B) (g : B → A)
    → ((b c : B) → f (g b) ≡ ok c → c ≡ b)
    → (bs cs : List B) → map_ok f (map g bs) ≡ ok cs
    → cs ≡ bs
unfolding map_ok
map_ok_exact f g same [] cs h = sym (ok-injective h)
map_ok_exact {A = A} {B = B} f g same (b ∷ bs) cs h =
    let (y, hy, h₁) =
      >>=-ok (f (g b)) (λ (y : B). map_ok f (map g bs) >>= λ (ys : List B). ok (y ∷ ys)) h in
    let (ys, hys, h₂) = >>=-ok (map_ok f (map g bs)) (λ (ys : List B). ok (y ∷ ys)) h₁ in
    sym (ok-injective h₂) ∙ cc (same b y hy, map_ok_exact f g same bs ys hys)
