-- ===== src/RemoteProver/LoadBalancer/Workers.antt =====
-- What the operations of bin/remote-prover/src/proxy/mod.rs do to the list of workers.
use miden_node.Prelude.{
  ℕ, ◌≡◌, refl, ap, Bool, true, false, not, ◌&&◌, ◌||◌, some, List, [], ◌∷◌, ◌++◌, arith, ◌==◌, any,
  map, filter, Bool-cases, Option-cases, inl, inr,
}
use miden_node.Collections.BTreeSet.{contains}
use miden_node.Collections.Distinct.{IsDistinct, IsDistinct-rotate}
use miden_node.RemoteProver.Worker.{Worker, set_availability}
use miden_node.RemoteProver.LoadBalancer.{
  pop_available, take_worker, same_worker, add_workers, remove_workers,
}

abbrev pub backends : List Worker → List ℕ
backends = map (λ w. w.backend)

-- A worker with the backend is available.
abbrev pub available : ℕ → List Worker → Bool
available b = any (λ w. w.backend == b && w.is_available)

available-append :
    (b : ℕ) (vs ws : List Worker) → available b (vs ++ ws) ≡ (available b vs || available b ws)
available-append b [] ws = refl
available-append b (v ∷ vs) ws = ground (arith, available-append b vs ws)

pub available-unknown :
    (b : ℕ) (ws : List Worker) → contains b (backends ws) ≡ false → available b ws ≡ false
unfolding contains
available-unknown b [] h = refl
available-unknown b (w ∷ ws) h = ground (arith, available-unknown b ws)

backends-rotate :
    (ws : List Worker) (w : Worker) → backends (ws ++ w ∷ []) ≡ backends ws ++ w.backend ∷ []
backends-rotate [] w = refl
backends-rotate (v ∷ ws) w = ap (◌∷◌ v.backend) (backends-rotate ws w)

pub pop_available-backends : (ws : List Worker) → backends (pop_available ws).0 ≡ backends ws
unfolding pop_available set_availability
pop_available-backends [] = refl
pop_available-backends (w ∷ ws) = elim (Bool-cases w.is_available) [
  | inl yes_available ↦ rw yes_available refl
  | inr busy ↦ rw busy (ap (◌∷◌ w.backend) (pop_available-backends ws))
]

-- A worker that is taken was available, and is not any more; the others stay as they are.
pub pop_available-some :
    (ws : List Worker) (w : Worker)
    → IsDistinct (backends ws)
    → (pop_available ws).1 ≡ some w
    → (available w.backend ws ≡ true)
      × ((b : ℕ) → available b (pop_available ws).0 ≡ (not (b == w.backend) && available b ws))
unfolding pop_available set_availability contains
pop_available-some [] w d h = absurd (ground arith)
pop_available-some (v ∷ ws) w (fresh, d) h = elim (Bool-cases v.is_available) [
  | inl free ↦
      (ground (arith, free, h), λ b. ground (arith, free, h, available-unknown v.backend ws fresh))
  | inr busy ↦
      let found : (pop_available ws).1 ≡ some w = ground (arith, busy, h) in
      let (was, rest) = pop_available-some ws w d found in
      (ground (arith, busy, was), λ b. ground (arith, busy, rest b))
]

-- With an available worker one is found.
pub pop_available-finds :
    (ws : List Worker)
    → any (λ w. w.is_available) ws ≡ true
    → (w : Worker) × ((pop_available ws).1 ≡ some w)
unfolding pop_available
pop_available-finds [] h = absurd (ground arith)
pop_available-finds (v ∷ ws) h = elim (Bool-cases v.is_available) [
  | inl free ↦ (set_availability false v, rw free refl)
  | inr busy ↦ let (w, found) = pop_available-finds ws (ground (arith, busy)) in (w, rw busy found)
]

-- What is left when a worker is taken out.
pub take_worker-some :
    (b : ℕ) (ws vs : List Worker) (w : Worker)
    → take_worker b ws ≡ some (w, vs)
    → (w.backend ≡ b)
      × ((k : ℕ) → contains k (backends ws) ≡ (k == b || contains k (backends vs)))
      × (IsDistinct (backends ws) → IsDistinct (backends vs) × (contains b (backends vs) ≡ false))
      × ((k : ℕ) → (k == b) ≡ false → available k vs ≡ available k ws)
unfolding take_worker contains
take_worker-some b [] vs w h = absurd (ground arith)
take_worker-some b (v ∷ ws) vs w h = elim (Bool-cases (v.backend == b)) [
  | inl same ↦
      let is_v : w ≡ v = ground (arith, same, h) in
      let is_ws : vs ≡ ws = ground (arith, same, h) in
      (
        ground (arith, same, is_v),
        λ k. ground (arith, same, is_ws),
        λ d. rw is_ws (d.1, ground (arith, same, d.0)),
        λ k ne. ground (arith, same, is_ws, ne),
      )
  | inr other ↦ elim (Option-cases (take_worker b ws)) [
    | inl gone ↦ absurd (ground (arith, other, gone, h))
    | inr ((u, us), found) ↦
        let (at, same, distinct, rest) = take_worker-some b ws us u found in
        let is_u : w ≡ u = ground (arith, other, found, h) in
        let is_us : vs ≡ v ∷ us = ground (arith, other, found, h) in
        (
          ground (arith, is_u, at),
          λ k. ground (arith, is_us, same k),
          λ d.
              let (d', out) = distinct d.1 in
              rw is_us ((ground (arith, d.0, same v.backend), d'), ground (arith, out, other)),
          λ k ne. ground (arith, is_us, rest k ne),
        )
  ]
]

pub rotated-IsDistinct :
    (ws : List Worker) (w : Worker)
    → contains w.backend (backends ws) ≡ false
    → IsDistinct (backends ws)
    → IsDistinct (backends (ws ++ w ∷ []))
rotated-IsDistinct ws w fresh d =
    rw backends-rotate (IsDistinct-rotate w.backend (backends ws) fresh d)

pub available-rotate :
    (b : ℕ) (ws : List Worker) (w : Worker)
    → available b (ws ++ w ∷ []) ≡ (w.backend == b && w.is_available || available b ws)
available-rotate b ws w = ground (arith, available-append b ws (w ∷ []))

-- The test of the addition, on the backends.
any-same_worker :
    (w : Worker) (ws : List Worker) → any (same_worker w) ws ≡ contains w.backend (backends ws)
unfolding contains
any-same_worker w [] = refl
any-same_worker w (v ∷ ws) = ground (arith, any-same_worker w ws)

-- The addition keeps the workers distinct, and makes none available but the added ones.
pub add_workers_lem :
    (vs ws : List Worker)
    → IsDistinct (backends ws)
    → IsDistinct (backends (add_workers vs ws))
      × ((b : ℕ)
          → contains b (backends vs) ≡ false
          → available b (add_workers vs ws) ≡ available b ws)
unfolding add_workers contains
add_workers_lem [] ws d = (d, λ b h. refl)
add_workers_lem (v ∷ vs) ws d = elim (Bool-cases (any (same_worker v) ws)) [
  | inl known ↦
      let (d', kept) = add_workers_lem vs ws d in rw known (d', λ b h. kept b (ground arith))
  | inr unknown ↦
      let fresh : contains v.backend (backends ws) ≡ false = ground (arith, any-same_worker v ws) in
      let (d', kept) = add_workers_lem vs (ws ++ v ∷ []) (rotated-IsDistinct ws v fresh d) in
      rw unknown (d', λ b h. ground (arith, kept b, available-rotate b ws v))
]

contains-filter_backend :
    (k b : ℕ) (ws : List Worker)
    → contains k (backends (filter (λ v. not (v.backend == b)) ws))
      ≡ (not (k == b) && contains k (backends ws))
unfolding contains
contains-filter_backend k b [] = ground arith
contains-filter_backend k b (w ∷ ws) = ground (arith, contains-filter_backend k b ws)

filter_backend_lem :
    (b : ℕ) (ws : List Worker)
    → IsDistinct (backends ws)
    → IsDistinct (backends (filter (λ v. not (v.backend == b)) ws))
      × ((k : ℕ)
          → available k (filter (λ v. not (v.backend == b)) ws) ≡ (not (k == b) && available k ws))
filter_backend_lem b [] d = (tt, λ k. ground arith)
filter_backend_lem b (w ∷ ws) (fresh, d) =
    let (d', kept) = filter_backend_lem b ws d in
    elim (Bool-cases (w.backend == b)) [
      | inl same ↦ rw same (d', λ k. ground (arith, same, kept k))
      | inr other ↦ rw other (
        (ground (arith, fresh, contains-filter_backend w.backend b ws), d'),
        λ k. ground (arith, other, kept k),
      )
    ]

-- The removal keeps the workers distinct, and makes none available.
pub remove_workers_lem :
    (vs ws : List Worker)
    → IsDistinct (backends ws)
    → IsDistinct (backends (remove_workers vs ws))
      × ((b : ℕ)
          → available b (remove_workers vs ws) ≡ (not (contains b (backends vs)) && available b ws))
unfolding remove_workers contains
remove_workers_lem [] ws d = (d, λ b. refl)
remove_workers_lem (v ∷ vs) ws d =
    let (d1, kept1) = filter_backend_lem v.backend ws d in
    let (d2, kept2) = remove_workers_lem vs (filter (λ u. not (same_worker u v)) ws) d1 in
    (d2, λ b. ground (arith, kept1 b, kept2 b))
