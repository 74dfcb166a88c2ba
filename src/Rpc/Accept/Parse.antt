-- ===== src/Rpc/Accept/Parse.antt =====
-- The form of an ACCEPT header, `AcceptHeaderValue::try_from` of crates/rpc/src/server/accept.rs.
use miden_node.Prelude.{
  ℕ, ◌≡◌, ◌≢◌, ◌↔◌, ◌⊎◌, refl, false, none, some, List, [], ◌∷◌, ◌++◌, arith, ◌==◌, Bool-cases,
  Option-cases, inl, inr,
}
use miden_node.Collections.BTreeSet.{contains}
use miden_node.Rpc.Accept.{
  AcceptHeaderValue, prefix, dot, plus, tag, take_until, try_from, forwarded, Semver, call,
}

-- The canonical representation, `application/vnd.{app_name}.{version}+{response_type}`.
abbrev pub print : AcceptHeaderValue → List ℕ
print v = prefix ++ (v.app_name ++ dot ∷ (v.version ++ plus ∷ v.response_type))

-- The name has no dot, and the version no plus sign.
abbrev pub IsPlain : AcceptHeaderValue → Type 0
IsPlain v = (contains dot v.app_name ≡ false) × (contains plus v.version ≡ false)

tag-append : (p xs : List ℕ) → tag p (p ++ xs) ≡ some xs
tag-append [] xs = refl
tag-append (c ∷ p) xs = ground (arith, tag-append p xs)

tag-some : (p s r : List ℕ) → tag p s ≡ some r → s ≡ p ++ r
tag-some [] s r e = ground (arith, e)
tag-some (c ∷ p) [] r e = absurd (ground (arith, e))
tag-some (c ∷ p) (x ∷ s) r e = elim (Bool-cases (x == c)) [
  | inl same ↦
      let is_c : x ≡ c = ground (arith, same) in
      let rest = tag-some p s r (ground (arith, same, e)) in cc (is_c, rest)
  | inr other ↦ absurd (ground (arith, other, e))
]

take_until-find :
    (c : ℕ) (xs rest : List ℕ)
    → contains c xs ≡ false
    → take_until c (xs ++ c ∷ rest) ≡ some (c ∷ rest, xs)
unfolding contains
take_until-find c [] rest h = ground arith
take_until-find c (x ∷ xs) rest h = ground (arith, h, take_until-find c xs rest)

take_until-some :
    (c : ℕ) (s after before : List ℕ)
    → take_until c s ≡ some (after, before)
    → (s ≡ before ++ after) × (contains c before ≡ false)
unfolding contains
take_until-some c [] after before e = absurd (ground (arith, e))
take_until-some c (x ∷ s) after before e = elim (Bool-cases (x == c)) [
  | inl same ↦
      let at : after ≡ x ∷ s = ground (arith, same, e) in
      let none_before : before ≡ [] = ground (arith, same, e) in
      (cc (at, none_before), ground (arith, none_before))
  | inr other ↦ elim (Option-cases (take_until c s)) [
    | inl gone ↦ absurd (ground (arith, other, gone, e))
    | inr ((a, b), found) ↦
        let (whole, fresh) = take_until-some c s a b found in
        let at : after ≡ a = ground (arith, other, found, e) in
        let is_b : before ≡ x ∷ b = ground (arith, other, found, e) in
        (cc (whole, at, is_b), ground (arith, is_b, fresh, other))
  ]
]

try_from-print : (v : AcceptHeaderValue) → IsPlain v → try_from (print v) ≡ some v
unfolding try_from
try_from-print v (no_dot, no_plus) =
    let t1 = tag-append prefix (v.app_name ++ dot ∷ (v.version ++ plus ∷ v.response_type)) in
    let t2 = take_until-find dot v.app_name (v.version ++ plus ∷ v.response_type) no_dot in
    let t3 = take_until-find plus v.version v.response_type no_plus in ground (arith, t1, t2, t3)

try_from-some :
    (s : List ℕ) (v : AcceptHeaderValue) → try_from s ≡ some v → (s ≡ print v) × IsPlain v
unfolding try_from
try_from-some s v e = elim (Option-cases (tag prefix s)) [
  | inl gone ↦ absurd (ground (arith, gone, e))
  | inr (s1, e1) ↦ elim (Option-cases (take_until dot s1)) [
    | inl gone ↦ absurd (ground (arith, e1, gone, e))
    | inr ((s2, app), e2) ↦ elim (Option-cases (tag (dot ∷ []) s2)) [
      | inl gone ↦ absurd (ground (arith, e1, e2, gone, e))
      | inr (s3, e3) ↦ elim (Option-cases (take_until plus s3)) [
        | inl gone ↦ absurd (ground (arith, e1, e2, e3, gone, e))
        | inr ((s4, ver), e4) ↦ elim (Option-cases (tag (plus ∷ []) s4)) [
          | inl gone ↦ absurd (ground (arith, e1, e2, e3, e4, gone, e))
          | inr (s5, e5) ↦
              let is_v : v ≡ record { app_name = app; version = ver; response_type = s5 } =
                ground (arith, e1, e2, e3, e4, e5, e) in
              let (w2, f2) = take_until-some dot s1 s2 app e2 in
              let (w4, f4) = take_until-some plus s3 s4 ver e4 in
              (
                cc (
                  is_v,
                  tag-some prefix s s1 e1,
                  w2,
                  tag-some (dot ∷ []) s2 s3 e3,
                  w4,
                  tag-some (plus ∷ []) s4 s5 e5,
                ),
                (ground (arith, is_v, f2), ground (arith, is_v, f4)),
              )
        ]
      ]
    ]
  ]
]

-- The client asks for a version that is none, or that the server does not have.
abbrev pub AsksForOther : Semver → List ℕ → Type 0
AsksForOther S s =
    (v : AcceptHeaderValue) × (s ≡ print v)
    × IsPlain v
    × ((S.parse v.version ≡ none)
        ⊎ (version : S.Version) × (S.parse v.version ≡ some version) × (S.matches version ≡ false))

refuses : (S : Semver) (s : List ℕ) → call S (some (some s)) ≢ forwarded → AsksForOther S s
unfolding call
refuses S s h = elim (Option-cases (try_from s)) [
  | inl gone ↦ absurd (h (ground (arith, gone)))
  | inr (v, found) ↦
      let (whole, plain) = try_from-some s v found in
      elim (Option-cases (S.parse v.version)) [
        | inl bad ↦ (v, whole, plain, inl bad)
        | inr (version, parsed) ↦ elim (Bool-cases (S.matches version)) [
          | inl yes_matches ↦ absurd (h (ground (arith, found, parsed, yes_matches)))
          | inr other ↦ (v, whole, plain, inr (version, parsed, other))
        ]
      ]
]

-- A request with a textual ACCEPT header is refused exactly if the header is
-- `application/vnd.{app_name}.{version}+{response_type}`, with a name without dots and a version without
-- plus signs, and the version is malformed or does not match the server's. A request without the header
-- is handed on.
pub call_lem :
    (S : Semver) (s : List ℕ)
    → ((call S (some (some s)) ≢ forwarded) ↔ AsksForOther S s) × (call S none ≡ forwarded)
unfolding call
call_lem S s = ((refuses S s, back), refl)
  where
    back : AsksForOther S s → call S (some (some s)) ≢ forwarded
    back (v, whole, plain, why) e =
        let found : try_from s ≡ some v = cc (whole, try_from-print v plain) in
        elim why [
          | inl bad ↦ ground (arith, found, bad, e)
          | inr (version, parsed, other) ↦ ground (arith, found, parsed, other, e)
        ]
