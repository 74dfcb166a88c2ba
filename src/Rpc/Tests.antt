-- ===== src/Rpc/Tests.antt =====
-- ACCEPT headers of crates/rpc/src/server/accept.rs.
use miden_node.Prelude.{ℕ, ◌≡◌, ◌≢◌, ◌↔◌, none, some, [], ◌∷◌, ◌==◌}
use miden_node.Rpc.Accept.{AcceptHeaderValue, Semver, call, forwarded}
use miden_node.Rpc.Accept.Parse.{print, AsksForOther, call_lem}

-- A version is one digit, and the server has version 1.
abbrev digits : Semver
digits = record {
  Version = ℕ;
  parse = λ s. elim s [ d ∷ [] ↦ some d | _ ↦ none ];
  matches = λ d. d == 49;
}

-- Version 2.
abbrev other : AcceptHeaderValue
other = record { app_name = 109 ∷ []; version = 50 ∷ []; response_type = 103 ∷ [] }

call_lem_example :
    ((call digits (some (some (print other))) ≢ forwarded) ↔ AsksForOther digits (print other))
    × (call digits none ≡ forwarded)
call_lem_example = call_lem digits (print other)
