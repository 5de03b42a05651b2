-- ===== src/Route/Codec.antt =====
-- core.py `Route.from_object` and `Route.to_dict`, and that a valid route survives them.
use cross_agent_chat.Prelude.{
  if◌then◌else◌, String, ◌≡◌, refl, ◌∙◌, Bool, ◌||◌, Option, none, some, List, [], ◌∷◌, ◌++◌, arith,
}
use cross_agent_chat.Core.{
  Error, message, Result, err, ok, ◌>>=◌, ◌>>◌, require, or_fail, Env, >>=-ok,
}
use cross_agent_chat.Core.Ids.{Provider, claude, codex, devin}
use cross_agent_chat.Json.{
  Json, int, str, obj, Fields, end, field, get, keys, member, subset, keys_are, as_str, as_int,
}
use cross_agent_chat.Route.{provider_text, Route, check_owner, check_route}
use cross_agent_chat.Text.{Text, codes, ◌==◌}
use cross_agent_chat.Core.Paths.{stored_cwd_lem}

unfoldable pub route_fields : List Text
route_fields =
    codes "schema_version"
    ∷ codes "provider"
    ∷ codes "session_id"
    ∷ codes "device"
    ∷ codes "cwd"
    ∷ codes "project"
    ∷ codes "alias"
    ∷ codes "generation"
    ∷ codes "pid"
    ∷ codes "last_seen"
    ∷ []

abbrev route_schema : Error
route_schema = message "route schema is unsupported"

-- `set(raw)` is one of the three sets of keys.
unfoldable pub route_keys : Fields → Bool
route_keys fs =
    keys_are route_fields fs
    || keys_are (route_fields ++ codes "owner_identity" ∷ []) fs
    || keys_are (route_fields ++ codes "owner_identity" ∷ codes "profile_root" ∷ []) fs

unfoldable pub read_provider : Text → Option Provider
read_provider s =
    if s == provider_text claude
    then some claude
    else if s == provider_text codex
    then some codex
    else if s == provider_text devin
    then some devin
    else none

unfoldable pub text_of : String → Fields → Result Text
text_of key fs = or_fail (as_str (get (codes key) fs)) route_schema

-- `values.get(key)`, a text where the key is there.
unfoldable pub optional_text : String → Fields → Result (Option Text)
optional_text key fs = elim (get (codes key) fs) [
  | none ↦ ok none
  | some j ↦ do s ← or_fail (as_str (some j)) route_schema; ok (some s)
]

-- `Route.from_object` up to the call of the constructor
unfoldable pub route_of_fields : Fields → Result Route
route_of_fields fs = do
  require (route_keys fs) route_schema
  schema_version ← or_fail (as_int (get (codes "schema_version") fs)) route_schema
  provider_name ← text_of "provider" fs
  provider ← or_fail (read_provider provider_name) route_schema
  session_id ← text_of "session_id" fs
  device ← text_of "device" fs
  cwd ← text_of "cwd" fs
  project ← text_of "project" fs
  alias ← text_of "alias" fs
  generation ← text_of "generation" fs
  last_seen ← text_of "last_seen" fs
  pid ← or_fail (as_int (get (codes "pid") fs)) route_schema
  owner_identity ← optional_text "owner_identity" fs
  profile_root ← optional_text "profile_root" fs
  ok (record {
    schema_version = schema_version;
    provider = provider;
    session_id = session_id;
    device = device;
    cwd = cwd;
    project = project;
    alias = alias;
    generation = generation;
    pid = pid;
    last_seen = last_seen;
    owner_identity = owner_identity;
    profile_root = profile_root;
  })

module _ (env : Env) where
  -- `Route.from_object`
  unfoldable pub route_from_object : Json → Result Route
  route_from_object (obj fs) = do r ← route_of_fields fs; check_route env r
  route_from_object _ = err route_schema

unfoldable pub optional_field : String → Option Text → Fields → Fields
optional_field key none fs = fs
optional_field key (some s) fs = field (codes key) (str s) fs

-- `Route.to_dict`; a later key comes behind the earlier ones.
unfoldable pub route_to_dict : Route → Json
route_to_dict r = obj (
    field (codes "schema_version") (int r.schema_version) (
      field (codes "provider") (str (provider_text r.provider)) (
        field (codes "session_id") (str r.session_id) (
          field (codes "device") (str r.device) (
            field (codes "cwd") (str r.cwd) (
              field (codes "project") (str r.project) (
                field (codes "alias") (str r.alias) (
                  field (codes "generation") (str r.generation) (
                    field (codes "pid") (int r.pid) (
                      field (codes "last_seen") (str r.last_seen) (
                        optional_field "owner_identity" r.owner_identity
                          (optional_field "profile_root" r.profile_root end))))))))))))

reads : Unit {0}
unfolding route_of_fields route_from_object route_to_dict optional_field optional_text text_of
    read_provider route_keys keys_are subset member keys get as_str as_int provider_text
    route_fields ◌==◌
reads = tt

-- What the keys of `to_dict` allow: a profile root stands beside an owner identity.
abbrev pub HasOwner : Option Text → Option Text → Type 0
HasOwner none (some root) = ⊥
HasOwner owner root = Unit

read_provider-provider_text : (p : Provider) → read_provider (provider_text p) ≡ some p
unfolding reads
read_provider-provider_text claude = refl
read_provider-provider_text codex = refl
read_provider-provider_text devin = refl

-- The decoded fields are those of the route.
decodes :
    (env : Env) (r : Route) (owner root : Option Text)
    → HasOwner owner root
    → route_from_object env
        (route_to_dict (record r { owner_identity = owner; profile_root = root }))
      ≡ check_route env (record r { owner_identity = owner; profile_root = root })
unfolding reads
decodes env r none none h = rw (read_provider-provider_text r.provider)
decodes env r none (some root) h = absurd h
decodes env r (some owner) none h = rw (read_provider-provider_text r.provider)
decodes env r (some owner) (some root) h = rw (read_provider-provider_text r.provider)

check_owner-HasOwner :
    (env : Env) (owner root : Option Text)
    → check_owner env owner root ≡ ok tt
    → HasOwner owner root
unfolding check_owner
check_owner-HasOwner env none none h = tt
check_owner-HasOwner env none (some root) h = absurd (ground (arith, stored_cwd_lem root))
check_owner-HasOwner env (some owner) none h = tt
check_owner-HasOwner env (some owner) (some root) h = tt

pub check_route-ok :
    (env : Env) (r r' : Route)
    → check_route env r ≡ ok r'
    → (r' ≡ r) × (check_owner env r.owner_identity r.profile_root ≡ ok tt)
unfolding check_route
check_route-ok env r r' h = ground arith

-- A route that passes its validation is read back from its object as the same route.
pub route_from_object-to_dict :
    (env : Env) (r : Route)
    → check_route env r ≡ ok r
    → route_from_object env (route_to_dict r) ≡ ok r
route_from_object-to_dict env r h =
    decodes env r r.owner_identity r.profile_root
      (check_owner-HasOwner env r.owner_identity r.profile_root (check_route-ok env r r h).1)
    ∙ h

-- What is read from a registry file passes the validation.
pub route_from_object-check_route :
    (env : Env) (j : Json) (r : Route) → route_from_object env j ≡ ok r → check_route env r ≡ ok r
unfolding route_from_object
route_from_object-check_route env (obj fs) r h =
    let (s, _, checked) = >>=-ok (route_of_fields fs) (check_route env) h in
    let same = (check_route-ok env s r checked).0 in rw (← same) at checked
route_from_object-check_route env j r h = absurd (cc)
