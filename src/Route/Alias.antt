-- ===== src/Route/Alias.antt =====
-- core.py `friendly_alias`: the room that an alias has.
use cross_agent_chat.Prelude.{
  ltb, leb, Bool-cases, length, length-append, ℕ, zero, suc, ◌+◌, ◌-◌, ◌≤◌, ◌≡◌, refl, ap, inl, inr,
  Bool, true, Option, none, some, [], ◌∷◌, ◌++◌, arith,
}
use cross_agent_chat.Core.{ok, Env}
use cross_agent_chat.Core.Ids.{
  Provider, claude, codex, devin, valid_session_id, valid_device, is_name, valid_name_lem,
}
use cross_agent_chat.Route.{
  provider_text, take, slice_to, alias_digest_length, max_alias_codepoints, session_key,
  alias_suffix, fit_project, friendly_alias,
}
use cross_agent_chat.Text.{Text, is_hex_digit, class_run, at_end, is_hex64, device_re}

length-take : (n : ℕ) (s : Text) → n ≤ length s → length (take n s) ≡ n
unfolding take
length-take zero s h = refl
length-take (suc n) [] h = omega (arith, h)
length-take (suc n) (c ∷ s) h = ap suc (length-take n s (omega (arith, h)))

length-class_run :
    (is_in : ℕ → Bool) (n : ℕ) (s r : Text) → class_run is_in n s ≡ some r → n ≤ length s
unfolding class_run
length-class_run is_in zero s r h = omega arith
length-class_run is_in (suc n) [] r h = absurd (cc)
length-class_run is_in (suc n) (c ∷ s) r h = elim (Bool-cases (is_in c)) [
  | inl e ↦ let more = length-class_run is_in n s r (ground arith) in omega arith
  | inr e ↦ absurd (ground arith)
]

length-is_hex64 : (s : Text) → is_hex64 s ≡ true → 64 ≤ length s
unfolding is_hex64
length-is_hex64 s h = by_run (class_run is_hex_digit 64 s) refl
  where
    by_run : (o : Option Text) → class_run is_hex_digit 64 s ≡ o → 64 ≤ length s
    by_run none e = absurd (let bad : at_end none ≡ true = rw e at h in cc)
    by_run (some r) e = length-class_run is_hex_digit 64 s r e

length-device : (s : Text) → device_re s ≡ true → length s ≤ 63
unfolding device_re
length-device [] h = omega arith
length-device (c ∷ s) h = ground arith

length-provider_text : (p : Provider) → length (provider_text p) ≤ 6
unfolding provider_text
length-provider_text claude = omega arith
length-provider_text codex = omega arith
length-provider_text devin = omega arith

module _ (env : Env) where
  -- The digest mark of twelve characters.
  length-digest_mark : (s : Text) → length (take alias_digest_length (env.sha256 s)) ≡ 12
  length-digest_mark s =
      length-take 12 (env.sha256 s)
        (let long = length-is_hex64 (env.sha256 s) (env.sha256-is_hex64 s) in omega arith)

  length-fit_project :
      (available : ℕ) (project : Text)
      → 13 ≤ available
      → length (fit_project env available project) ≤ available
  unfolding fit_project slice_to
  length-fit_project available project h =
      let room : leb 13 available ≡ true = ground (arith, h) in
      elim (Bool-cases (ltb available (length project))) [
        | inl e ↦
            rw (e, length-digest_mark project, room)
              (rw
                (
                  length-append,
                  length-take (available - 13) project (ground arith),
                  length-digest_mark project,
                )
                (omega (arith, h)))
        | inr e ↦ rw e (ground arith)
      ]

  -- The suffix of an alias for a session id that is valid.
  suffix_of :
      (p : Provider) (session_id : Text)
      → valid_session_id p session_id "session id" ≡ ok session_id
      → (suffix : Text) × (alias_suffix env p session_id ≡ ok suffix) × (length suffix ≤ 13)
  unfolding alias_suffix session_key
  suffix_of claude session_id h = ([], refl, omega arith)
  suffix_of codex session_id h =
      let digest_mark =
        take alias_digest_length (env.sha256 (provider_text codex ++ (b':' ∷ session_id))) in
      (
        b':' ∷ digest_mark,
        rw h refl,
        rw (length-digest_mark (provider_text codex ++ (b':' ∷ session_id))) (omega arith),
      )
  suffix_of devin session_id h = ([], refl, omega arith)

  length-prefix :
      (p : Provider) (device : Text)
      → device_re device ≡ true
      → length (provider_text p ++ (b'@' ∷ (device ++ (b':' ∷ [])))) ≤ 71
  length-prefix p device h =
      rw (length-append (provider_text p), length-append device)
        (omega (arith, length-provider_text p, length-device device h))

  -- `friendly_alias` on a valid device, project and session id succeeds with at most 128 code
  -- points: neither of its own two rejections is ever reached.
  pub friendly_alias_lem :
      (p : Provider) (device project session_id : Text)
      → device_re device ≡ true
      → is_name env project ≡ true
      → valid_session_id p session_id "session id" ≡ ok session_id
      → (alias : Text) × (friendly_alias env p device project session_id ≡ ok alias)
        × (length alias ≤ max_alias_codepoints)
  unfolding friendly_alias valid_device
  friendly_alias_lem p device project session_id hd hp hs =
      let (suffix, made, short) = suffix_of p session_id hs in
      let prefix = provider_text p ++ (b'@' ∷ (device ++ (b':' ∷ []))) in
      let front : length prefix ≤ 71 = length-prefix p device hd in
      let available = max_alias_codepoints - length prefix - length suffix in
      let middle : length (fit_project env available project) ≤ available =
        length-fit_project available project (omega arith) in
      let fits : length (prefix ++ (fit_project env available project ++ suffix)) ≤ 128 =
        rw (length-append prefix, length-append (fit_project env available project))
          (omega arith) in
      let room : ltb (length prefix + length suffix) max_alias_codepoints ≡ true = ground arith in
      let short_enough : leb (length (prefix ++ (fit_project env available project ++ suffix)))
            max_alias_codepoints
          ≡ true =
        ground arith in
      (
        prefix ++ (fit_project env available project ++ suffix),
        rw (hd, made, valid_name_lem env project "project", hp, room, short_enough) refl,
        fits,
      )
