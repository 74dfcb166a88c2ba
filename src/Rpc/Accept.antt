-- ===== src/Rpc/Accept.antt =====
-- The ACCEPT header of a request, crates/rpc/src/server/accept.rs. A text is the list of its characters.
pub mod Parse
use miden_node.Prelude.{
  ◌>>=◌, ℕ, ◌==◌, Bool, true, false, Option, none, some, List, [], ◌∷◌, ◌++◌, if◌then◌else◌,
}

pub record AcceptHeaderValue : Type 0 where
  pub app_name : List ℕ
  pub version : List ℕ
  pub response_type : List ℕ

-- `application/vnd.`, a dot and a plus sign.
abbrev pub prefix : List ℕ
prefix =
    97 ∷ 112 ∷ 112 ∷ 108 ∷ 105 ∷ 99 ∷ 97 ∷ 116 ∷ 105 ∷ 111 ∷ 110 ∷ 47 ∷ 118 ∷ 110 ∷ 100 ∷ 46 ∷ []

abbrev pub dot : ℕ
dot = 46

abbrev pub plus : ℕ
plus = 43

-- `tag` of nom: what follows the pattern.
abbrev pub tag : List ℕ → List ℕ → Option (List ℕ)
tag [] input = some input
tag (c ∷ pattern) [] = none
tag (c ∷ pattern) (x ∷ input) = let rest = tag pattern input in if x == c then rest else none

-- `take_until` of nom, for one character: the input from its first occurrence on, and what is before.
abbrev pub take_until : ℕ → List ℕ → Option (List ℕ × List ℕ)
take_until c [] = none
take_until c (x ∷ input) =
    let rest = take_until c input in
    if x == c
    then some (x ∷ input, [])
    else elim rest [ none ↦ none | some (after, before) ↦ some (after, x ∷ before) ]

unfoldable pub try_from : List ℕ → Option AcceptHeaderValue
try_from input = do
  input1 ← tag prefix input
  (input2, app_name) ← take_until dot input1
  input3 ← tag (dot ∷ []) input2
  (input4, version) ← take_until plus input3
  response_type ← tag (plus ∷ []) input4
  some (record { app_name = app_name; version = version; response_type = response_type })

-- What `call` answers: it hands the request on, or returns a bad request with a message.
pub data Answer : Type 0 where
  forwarded : Answer
  invalid_value : Answer
  invalid_version : Answer
  version_mismatch : Answer

-- The versions of the semver crate.
pub record Semver : Type 1 where
  pub Version : Type 0
  pub parse : List ℕ → Option Version
  pub matches : Version → Bool

-- The header may be absent, or no text.
unfoldable pub call : Semver → Option (Option (List ℕ)) → Answer
call S none = forwarded
call S (some none) = invalid_value
call S (some (some accept_str)) = elim (try_from accept_str) [
  | none ↦ forwarded
  | some accept ↦ elim (S.parse accept.version) [
    | none ↦ invalid_version
    | some version ↦ if S.matches version then forwarded else version_mismatch
  ]
]
