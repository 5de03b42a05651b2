-- ===== src/Helper/Codec.antt =====
-- `to_dict` and `from_dict` of a binding, and that a binding survives them.
use cross_agent_chat.Prelude.{
  if◌then◌else◌, String, ◌≡◌, refl, ◌∙◌, Bool, true, false, ◌&&◌, ◌||◌, Option, none, some, List,
  [], ◌∷◌, arith,
}
use cross_agent_chat.Core.{Result, err, ok, ◌>>=◌, ◌>>◌, require, or_fail, >>=-ok}
use cross_agent_chat.Json.{
  Json, str, obj, Fields, end, field, get, keys, member, subset, keys_are, as_str,
}
use cross_agent_chat.Text.{Text, codes, ◌==◌}
use cross_agent_chat.Helper.{
  HelperState, unknown, registered, retired, Binding, bad_binding, check_helper, check_reserved,
  check_binding,
}

unfoldable pub state_text : HelperState → Text
state_text unknown = codes "UNKNOWN"
state_text registered = codes "REGISTERED"
state_text retired = codes "RETIRED"

unfoldable pub read_state : Text → Option HelperState
read_state s =
    if s == codes "UNKNOWN"
    then some unknown
    else if s == codes "REGISTERED"
    then some registered
    else if s == codes "RETIRED"
    then some retired
    else none

unfoldable pub binding_fields : List Text
binding_fields =
    codes "original_session_id"
    ∷ codes "original_generation"
    ∷ codes "original_device"
    ∷ codes "original_cwd"
    ∷ codes "original_profile_root"
    ∷ codes "account_sha256"
    ∷ codes "helper_directory"
    ∷ codes "nonce_sha256"
    ∷ codes "state"
    ∷ []

unfoldable pub registered_fields : List Text
unfolding binding_fields
registered_fields = codes "helper_session_id" ∷ codes "helper_generation" ∷ binding_fields

-- The two entries that `to_dict` adds for a helper; its class makes both present then.
unfoldable pub helper_entries : HelperState → Option Text → Option Text → Fields
helper_entries unknown session generation = end
helper_entries state (some session) (some generation) =
    field (codes "helper_session_id") (str session)
      (field (codes "helper_generation") (str generation) end)
helper_entries state session generation = end

-- `to_dict`
unfoldable pub binding_to_dict : Binding → Json
binding_to_dict b = obj (
    field (codes "original_session_id") (str b.original_session_id) (
      field (codes "original_generation") (str b.original_generation) (
        field (codes "original_device") (str b.original_device) (
          field (codes "original_cwd") (str b.original_cwd) (
            field (codes "original_profile_root") (str b.original_profile_root) (
              field (codes "account_sha256") (str b.account_sha256) (
                field (codes "helper_directory") (str b.helper_directory) (
                  field (codes "nonce_sha256") (str b.nonce_sha256) (
                    field (codes "state") (str (state_text b.state))
                      (helper_entries b.state b.helper_session_id b.helper_generation))))))))))

-- `isinstance(raw[key], str)` of every key.
unfoldable pub all_texts : Fields → Bool
all_texts end = true
all_texts (field k (str s) fs) = all_texts fs
all_texts (field k v fs) = false

unfoldable pub binding_text : String → Fields → Result Text
binding_text key fs = or_fail (as_str (get (codes key) fs)) bad_binding

-- `from_dict` up to the call of the constructor
unfoldable pub binding_of_fields : Fields → Result Binding
binding_of_fields fs = do
  require ((keys_are binding_fields fs || keys_are registered_fields fs) && all_texts fs)
      bad_binding
  state_name ← binding_text "state" fs
  state ← or_fail (read_state state_name) bad_binding
  original_session_id ← binding_text "original_session_id" fs
  original_generation ← binding_text "original_generation" fs
  original_device ← binding_text "original_device" fs
  original_cwd ← binding_text "original_cwd" fs
  original_profile_root ← binding_text "original_profile_root" fs
  account_sha256 ← binding_text "account_sha256" fs
  helper_directory ← binding_text "helper_directory" fs
  nonce_sha256 ← binding_text "nonce_sha256" fs
  ok (record {
    original_session_id = original_session_id;
    original_generation = original_generation;
    original_device = original_device;
    original_cwd = original_cwd;
    original_profile_root = original_profile_root;
    account_sha256 = account_sha256;
    helper_directory = helper_directory;
    nonce_sha256 = nonce_sha256;
    state = state;
    helper_session_id = as_str (get (codes "helper_session_id") fs);
    helper_generation = as_str (get (codes "helper_generation") fs);
  })

-- `from_dict`
unfoldable pub binding_from_dict : Json → Result Binding
binding_from_dict (obj fs) = do b ← binding_of_fields fs; check_binding b
binding_from_dict _ = err bad_binding

-- A binding that its class accepts.
abbrev pub IsBinding : Binding → Type 0
IsBinding b = check_binding b ≡ ok b

reads : Unit {0}
unfolding binding_of_fields binding_from_dict binding_to_dict binding_text helper_entries all_texts
    read_state state_text keys_are subset member keys get as_str binding_fields registered_fields
    ◌==◌
reads = tt

-- The decoded fields are those of the binding.
decodes :
    (b : Binding) (state : HelperState) (session generation : Option Text)
    → check_helper state session generation ≡ ok tt
    → binding_from_dict (
        binding_to_dict
          (record b { state = state; helper_session_id = session; helper_generation = generation }))
      ≡ check_binding
          (record b { state = state; helper_session_id = session; helper_generation = generation })
unfolding reads check_helper
decodes b unknown none none h = refl
decodes b unknown none (some g) h = absurd (cc)
decodes b unknown (some s) g h = absurd (cc)
decodes b registered none g h = absurd (cc)
decodes b registered (some s) none h = absurd (cc)
decodes b registered (some s) (some g) h = refl
decodes b retired none g h = absurd (cc)
decodes b retired (some s) none h = absurd (cc)
decodes b retired (some s) (some g) h = refl

pub check_binding-ok :
    (b b' : Binding)
    → check_binding b ≡ ok b'
    → (b' ≡ b)
      × (check_reserved b ≡ ok tt)
      × (check_helper b.state b.helper_session_id b.helper_generation ≡ ok tt)
unfolding check_binding
check_binding-ok b b' h = ground arith

-- A binding that its class accepts is read back from its object as the same binding.
pub binding_from_dict-to_dict :
    (b : Binding) → IsBinding b → binding_from_dict (binding_to_dict b) ≡ ok b
binding_from_dict-to_dict b h =
    decodes b b.state b.helper_session_id b.helper_generation (check_binding-ok b b h).2 ∙ h

-- What is read from the file is accepted by the class.
pub binding_from_dict-IsBinding :
    (j : Json) (b : Binding) → binding_from_dict j ≡ ok b → IsBinding b
unfolding binding_from_dict
binding_from_dict-IsBinding (obj fs) b h =
    let (c, _, checked) = >>=-ok (binding_of_fields fs) check_binding h in
    let same = (check_binding-ok c b checked).0 in rw (← same) at checked
binding_from_dict-IsBinding j b h = absurd (cc)
