-- ===== src/Store/State/Apply.antt =====
-- `State::apply_block` of crates/store/src/state.rs as a whole.
use miden_node.Prelude.{
  ℕ, ap, Bool, List, ◌+◌, last?, last?-append, ◌≡◌, ◌⊎◌, refl, some, arith, ok, Result, err,
  Bool-cases, inl, inr, map, Result-cases, ◌==◌,
}
use mathlib.Core.Path.{subst, sym}
use miden_node.Collections.Distinct.{IsDistinct}
use miden_node.Store.Outside.{Outside}
use miden_node.Store.Block.{
  BlockHeader, ProvenBlock, ApplyBlockError, invalid_block_error, new_block_invalid_note_root,
}
use miden_node.Store.Database.{Db}
use miden_node.Store.State.{
  await_save, latest_block_num, load_block, Faults, State, check_header, compute_updates,
  note_records, write, update_inner, apply_saved, save_block, apply_block, roots,
}
use miden_node.Store.State.Chain.{IsChain}
use miden_node.Store.State.Await.{Saved, Awaited, save_block-Saved, await_save-Awaited}
use miden_node.Store.State.Grow.{Grown, update_inner-Grown}
use miden_node.Store.State.Consistent.{
  IsOutside, IsConsistent, check_header-ok, compute_updates-ok, Written, write_block-ok, write-ok,
  Applied, Unchanged, Loaded, load_inner-Loaded, Loaded-load_inner,
}

module _ (O : Outside) (outside : IsOutside O) where
  -- How a call ends: with the block applied, or with an error and nothing changed that is read.
  abbrev pub Outcome :
      ProvenBlock O → State O → State O × Result (Unit {0}) (ApplyBlockError O) → Type 0
  Outcome block s (s', r) =
      (r ≡ ok tt) × Applied O block s s' ⊎ Unchanged O s s' × (e : ApplyBlockError O) × (r ≡ err e)

  -- What every call leaves.
  record Kept (block : ProvenBlock O) (s s' : State O) (r : Result (Unit {0}) (ApplyBlockError O))
      : Type 0 where
    consistent : IsConsistent O s'
    outcome : Outcome block s (s', r)

  -- The end of a call that has to fail.
  refused :
      (block : ProvenBlock O) (s s' : State O) (e : ApplyBlockError O)
      → IsConsistent O s
      → s'.db ≡ s.db
      → s'.inner ≡ s.inner
      → ((n : ℕ) → load_block O n s' ≡ load_block O n s)
      → Kept block s s' (err e)
  refused block s s' e c db inner reads = record {
    consistent = record {
      loaded = cc (db, inner, c.loaded);
      chain = subst (λ (d : Db O). IsChain d.block_headers) (sym db) c.chain;
      distinct = subst (λ (d : Db O). IsDistinct (map (λ r. r.0) d.nullifiers)) (sym db) c.distinct;
      tip = λ l last. cc (inner, c.tip l (ground (arith, db, last)));
    };
    outcome = inr ((db, inner, reads), e, refl);
  }

  -- The header is the next one after the last.
  record Follows (block : ProvenBlock O) (s : State O) (prev : BlockHeader) : Type 0 where
    last : last? s.db.block_headers ≡ some prev
    next : block.header.block_num ≡ prev.block_num + 1
    link : block.header.prev_block_commitment ≡ prev.commitment

  grown :
      (block : ProvenBlock O) (db' : Db O) (s t s' : State O) (latest : ℕ)
      → Awaited O block s t
      → latest_block_num O s.inner ≡ some latest
      → block.header.block_num ≡ latest + 1
      → O.hash_peaks s.inner.blockchain ≡ block.header.chain_commitment
      → Written O block s.db db'
      → IsChain db'.block_headers
      → IsDistinct (map (λ r. r.0) db'.nullifiers)
      → Grown O outside block db' t s'
      → Kept block s s' (ok tt)
  unfolding latest_block_num load_block
  grown block db' s t s' latest a tip next peaks w c d g =
      let h = block.header in
      let tip' : O.chain_tip s'.inner.blockchain ≡ some h.block_num = cc (
        g.blockchain,
        a.inner,
        outside.tip s.inner.blockchain block.commitment latest tip,
        ap (λ (n : ℕ). some n) next,
      ) in
      let last = last?-append s.db.block_headers h in
      record {
        consistent = record {
          loaded = cc (g.db, Loaded-load_inner O db' s'.inner g.loaded);
          chain = subst (λ (d : Db O). IsChain d.block_headers) (sym g.db) c;
          distinct = subst (λ (d : Db O). IsDistinct (map (λ r. r.0) d.nullifiers)) (sym g.db) d;
          tip = λ l e.
              let is_h : l ≡ h = ground (arith, e, g.db, w.block_headers, last) in
              cc (tip', ap (λ (k : BlockHeader). k.block_num) is_h);
        };
        outcome = inl (
          refl,
          record {
            written = subst (Written O block s.db) (sym g.db) w;
            nullifier_root = g.nullifier_root;
            account_root = g.account_root;
            chain_commitment = peaks;
            latest = tip';
            shown = ground (arith, tip', g.block_store, a.saved);
            others = λ n low. ground (arith, tip', tip, next, low, g.block_store, a.before n low);
            saves = cc (g.saves, a.saves);
          },
        );
      }

  -- The last part of a call, after the block is checked and its file written.
  committed :
      (faults : Faults) (block : ProvenBlock O) (s t t' : State O) (prev : BlockHeader)
      (u : O.nullifiers.Update) (v : O.accounts.Update) (notes : List (O.Note × Bool)) (db' : Db O)
      → block.commitment ≡ block.header.commitment
      → IsConsistent O s
      → Saved O block s t
      → Awaited O block s t'
      → Follows block s prev
      → compute_updates O block t.inner ≡ ok (u, v)
      → write O faults block notes t.db ≡ ok db'
      → (s' : State O) × (r : Result (Unit {0}) (ApplyBlockError O)) × (update_inner O faults block
            (roots O t.inner)
            (u, v)
            db'
            t'
          ≡ some (s', r))
        × Kept block s s' r
  committed faults block s t t' prev u v notes db' same c x a f good wrote =
      let l = load_inner-Loaded O s.db s.inner c.loaded in
      let lt =
        subst (λ (d : Db O). Loaded O d t'.inner) (sym a.db)
          (subst (Loaded O s.db) (sym a.inner) l) in
      let again : t'.inner ≡ t.inner = cc (x.inner, a.inner) in
      let up = compute_updates-ok O block t'.inner u v (cc (good, again)) in
      let wr = write-ok O faults block notes t.db db' wrote in
      let (w, c', d') =
        write_block-ok O block notes s.db db' prev c.chain c.distinct f.last f.next f.link
          (cc (wr, x.db)) in
      let wt = subst (λ (d : Db O). Written O block d db') (sym a.db) w in
      let (s', r, run, out) = update_inner-Grown O outside faults block t' db' u v same lt up wt in
      (
        s',
        r,
        cc (run, again),
        elim out [
          | inl (won, g) ↦ subst (Kept block s s') (sym won) (
              grown block db' s t' s' prev.block_num a (c.tip prev f.last) f.next
                (cc (a.inner, up.chain_commitment)) w c' d' g)
          | inr (kept, e, lost) ↦ subst (Kept block s s') (sym lost) (
              refused block s s' e c (cc (kept, a.db)) (cc (kept, a.inner))
                (λ n. cc (kept, a.reads n)))
        ],
      )

  -- The call waits for its task, and then commits.
  awaited :
      (faults : Faults) (block : ProvenBlock O) (s t : State O) (prev : BlockHeader)
      (u : O.nullifiers.Update) (v : O.accounts.Update) (notes : List (O.Note × Bool)) (db' : Db O)
      → block.commitment ≡ block.header.commitment
      → IsConsistent O s
      → Saved O block s t
      → Follows block s prev
      → compute_updates O block t.inner ≡ ok (u, v)
      → write O faults block notes t.db ≡ ok db'
      → (s' : State O) × (r : Result (Unit {0}) (ApplyBlockError O)) × ((elim (await_save O faults
            block t).1 [
              | err e ↦ some ((await_save O faults block t).0, err e)
              | ok _ ↦
                  update_inner O faults block
                    (roots O t.inner)
                    (u, v)
                    db'
                    (await_save O faults block t).0
            ])
          ≡ some (s', r))
        × Kept block s s' r
  awaited faults block s t prev u v notes db' same c x f good wrote =
      let (t', q, run, out) =
        await_save-Awaited O faults block s t prev.block_num (c.tip prev f.last) f.next x in
      elim out [
        | inr (db, inner, reads, e, lost) ↦
            (t', err e, ground (arith, run, lost), refused block s t' e c db inner reads)
        | inl (won, a) ↦
            let (s', r, done, k) =
              committed faults block s t t' prev u v notes db' same c x a f good wrote in
            (s', r, ground (arith, run, won, done), k)
      ]

  apply_saved-Kept :
      (faults : Faults) (block : ProvenBlock O) (s t : State O) (prev : BlockHeader)
      → block.commitment ≡ block.header.commitment
      → IsConsistent O s
      → Saved O block s t
      → Follows block s prev
      → (s' : State O) × (r : Result (Unit {0}) (ApplyBlockError O)) × (apply_saved O faults block t
          ≡ some (s', r))
        × Kept block s s' r
  unfolding apply_saved
  apply_saved-Kept faults block s t prev same c x f =
      let fails = λ (e : ApplyBlockError O). refused block s t e c x.db x.inner x.reads in
      elim (Result-cases (compute_updates O block t.inner)) [
        | inr (e, bad) ↦
            let e' = invalid_block_error e in (t, err e', ground (arith, bad), fails e')
        | inl ((u, v), good) ↦ elim (Bool-cases (block.note_root == block.header.note_root)) [
          | inr bad ↦
              let e = invalid_block_error new_block_invalid_note_root in
              (t, err e, ground (arith, good, bad), fails e)
          | inl root ↦ elim (Result-cases (note_records O block.output_notes)) [
            | inr (e, bad) ↦
                let e' = invalid_block_error e in
                (t, err e', ground (arith, good, root, bad), fails e')
            | inl (notes, noted) ↦ elim (Result-cases (write O faults block notes t.db)) [
              | inr (e, bad) ↦ (t, err e, ground (arith, good, root, noted, bad), fails e)
              | inl (db', wrote) ↦
                  let (s', r, run, k) =
                    awaited faults block s t prev u v notes db' same c x f good wrote in
                  (s', r, ground (arith, good, root, noted, wrote, run), k)
            ]
          ]
        ]
      ]

  -- Where the trees and the chain behave as documented, and a block has the commitment of its header: on
  -- a state in which a restart would load the trees and the chain that are in memory, the headers
  -- follow each other up to the tip, and no nullifier is recorded twice, a call does not panic and
  -- leaves such a state, whatever fails in it. The files that tasks of earlier calls write are steps of
  -- their own, before or after the call. Either the call succeeds: the rows of the block are added, the
  -- trees have the roots of its header, which has the commitment of the chain before, and at its
  -- return `load_block` reads the new block and the same earlier ones; or it returns an error, and at
  -- its return the database, the state in memory and all that `load_block` reads are as before it.
  pub apply_block-IsConsistent :
      (faults : Faults) (block : ProvenBlock O) (s : State O)
      → block.commitment ≡ block.header.commitment
      → IsConsistent O s
      → (s' : State O) × (r : Result (Unit {0}) (ApplyBlockError O)) × (apply_block O faults block s
          ≡ some (s', r))
        × IsConsistent O s'
        × Outcome block s (s', r)
  unfolding apply_block
  apply_block-IsConsistent faults block s same c =
      elim (Result-cases (check_header O faults block s.db)) [
        | inr (e, bad) ↦ (s, err e, ground (arith, bad), c, inr ((refl, refl, λ n. refl), e, refl))
        | inl (_, good) ↦
            let (prev, last, next, link) = check_header-ok O faults block s.db good in
            let f : Follows block s prev = record { last = last; next = next; link = link } in
            let (s', r, run, k) =
              apply_saved-Kept faults block s (save_block O block s) prev same c
                (save_block-Saved O block s) f in
            (s', r, ground (arith, good, run), k.consistent, k.outcome)
      ]
