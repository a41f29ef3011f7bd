-- ===== src/Store/Safety/Locks.antt =====
-- The precommit lock: a validator never precommits two digests for one conflict, in whatever rounds.
use avangard.Prelude.{
  ℕ, ◌≤◌, ◌≡◌, ◌≢◌, refl, sym, subst, ◌∙◌, List, [], ◌∷◌, arith, Option, none, some, ok, Bool-cases,
  ◌⊎◌, inl, inr, eq_of_bytes_eq, bytes_eq_refl, bytes_eq, true, false, ◌&&◌, ◌==◌, if◌then◌else◌,
}
use avangard.Prelude.Assoc.{lookup, insert, lookup-insert, bytes_has_eq}
use avangard.Store.Types.{
  Digest, WalStore, Io, VoteKey, PrecommitLock, vote_key_has_eq, vote_key_eq_iff, phase_precommit,
  below_lock_round, conflicts_with_lock,
}
use avangard.Store.Replay.{check_lock}
use avangard.Store.Append.{append, ensure_active}
use avangard.Store.Activate.{activate_commit}
use avangard.Store.Votes.{vote_commit}
use avangard.Store.Apply.{apply_commit}
use avangard.Store.Retire.{retire_commit, retire_active}
use avangard.Store.Activate
use avangard.Store.Votes
use avangard.Store.Apply
use avangard.Store.Retire
use avangard.Store.Calls.{Call, activate, persist_vote, apply_verified, retire, call, run}
use avangard.Store.Safety.Votes.{key}

-- The lock of a conflict stands for a precommit of `digest` in `round`.
abbrev pub Covers : Option PrecommitLock → ℕ → Digest → Type 0
Covers lock round digest =
    (l : PrecommitLock) × (lock ≡ some l) × (l.digest ≡ digest) × (round ≤ l.round)

-- Every recorded precommit is covered by the lock of its conflict.
pub record IsLocked (s : WalStore) : Type 0 where
  pub covered :
      (conflict_key : Digest) (round : ℕ) (digest : Digest)
      → lookup (key conflict_key round phase_precommit) s.votes ≡ some digest
      → Covers (lookup conflict_key s.locks) round digest

-- A lock lets only its own digest pass, in its own round or a later one.
check_lock_passes :
    (lock : Option PrecommitLock) (round : ℕ) (digest : Digest) {l : PrecommitLock}
    → check_lock lock round digest below_lock_round conflicts_with_lock ≡ ok tt
    → lock ≡ some l
    → (digest ≡ l.digest) × (l.round ≤ round)
unfolding check_lock
check_lock_passes none round digest {l} h e = absurd (cc)
check_lock_passes (some lock) round digest {l} h e =
    ground (arith, eq_of_bytes_eq digest lock.digest)

module _ (s : WalStore) (conflict_key : Digest) (round phase : ℕ) (digest : Digest)
    (hk : check_lock (lookup conflict_key s.locks) round digest below_lock_round conflicts_with_lock
      ≡ ok tt)
    (locked : IsLocked s) where
  abbrev votes_after : List (VoteKey × Digest)
  votes_after = insert (key conflict_key round phase) digest s.votes

  abbrev locks_after : List (Digest × PrecommitLock)
  locks_after =
      if phase == phase_precommit
      then insert conflict_key (record { round = round; digest = digest }) s.locks
      else s.locks

  -- The new lock covers the new vote and every older precommit of the conflict.
  covered_here :
      (r : ℕ) (d : Digest)
      → (phase == phase_precommit) ≡ true
      → lookup (key conflict_key r phase_precommit) votes_after ≡ some d
      → (digest ≡ d) × (r ≤ round)
  covered_here r d hp h = elim (Bool-cases (r == round)) [
    | inl same ↦ ground (
      arith,
      lookup-insert (key conflict_key round phase) (key conflict_key r phase_precommit) digest
          s.votes,
      vote_key_eq_iff (key conflict_key round phase) (key conflict_key r phase_precommit),
      bytes_eq_refl conflict_key,
    )
    | inr other ↦
        let (l, e, hd, hr) = locked.covered conflict_key r d (
          ground (
            arith,
            lookup-insert (key conflict_key round phase) (key conflict_key r phase_precommit) digest
                s.votes,
          )) in
        let (a, b) = check_lock_passes (lookup conflict_key s.locks) round digest hk e in
        (a ∙ hd, omega arith)
  ]

  -- A vote for another conflict, or in the other phase, is as it was.
  older_vote :
      (ck : Digest) (r : ℕ) (d : Digest)
      → ((phase == phase_precommit) && bytes_eq conflict_key ck) ≡ false
      → lookup (key ck r phase_precommit) votes_after ≡ some d
      → lookup (key ck r phase_precommit) s.votes ≡ some d
  older_vote ck r d other h = ground (
    arith,
    lookup-insert (key conflict_key round phase) (key ck r phase_precommit) digest s.votes,
  )

  voted-covered :
      (ck : Digest) (r : ℕ) (d : Digest)
      → lookup (key ck r phase_precommit) votes_after ≡ some d
      → Covers (lookup ck locks_after) r d
  voted-covered ck r d h =
      elim (Bool-cases ((phase == phase_precommit) && bytes_eq conflict_key ck)) [
        | inl here ↦
            let e : conflict_key ≡ ck = ground (arith, eq_of_bytes_eq conflict_key ck) in
            let (a, b) = covered_here r d (ground arith) (
              subst (λ (c : Digest). lookup (key c r phase_precommit) votes_after ≡ some d) (sym e)
                h) in
            (
              record { round = round; digest = digest },
              ground (
                arith,
                lookup-insert conflict_key ck (record { round = round; digest = digest }) s.locks,
              ),
              a,
              b,
            )
        | inr other ↦
            let (l, e, hd, hr) = locked.covered ck r d (older_vote ck r d other h) in
            (
              l,
              ground (
                arith,
                lookup-insert conflict_key ck (record { round = round; digest = digest }) s.locks,
              ),
              hd,
              hr,
            )
      ]

module _ (blake3 : List ℕ → Digest) where
  -- What `persist_vote` does to the votes and locks: nothing, or the effect of a vote that passed.
  vote_effect :
      (io : Io) (s : WalStore) (conflict_key : Digest) (round phase : ℕ) (digest : Digest)
      → let t = (Votes.persist_vote blake3 io conflict_key round phase digest s).1 in
        ((t.votes ≡ s.votes) × (t.locks ≡ s.locks))
        ⊎ ((check_lock
                (lookup conflict_key s.locks)
                round
                digest
                below_lock_round
                conflicts_with_lock
              ≡ ok tt)
            × (t.votes ≡ insert (key conflict_key round phase) digest s.votes)
            × (t.locks ≡ (
                if phase == phase_precommit
                then insert conflict_key (record { round = round; digest = digest }) s.locks
                else s.locks)))
  unfolding Votes.persist_vote vote_commit ensure_active append
  vote_effect io s conflict_key round phase digest = ground arith

  other_effect :
      (io : Io) (c : Call) (s : WalStore)
      → ((conflict_key : Digest) (round phase : ℕ) (digest : Digest)
          → c ≢ persist_vote conflict_key round phase digest)
      → ((call blake3 io c s).1.votes ≡ s.votes) × ((call blake3 io c s).1.locks ≡ s.locks)
  unfolding call Activate.activate activate_commit Apply.apply_verified apply_commit Retire.retire
      retire_active retire_commit append
  other_effect io (activate handoff snapshot) s h = ground arith
  other_effect io (persist_vote conflict_key round phase digest) s h =
      absurd (h conflict_key round phase digest refl)
  other_effect io (apply_verified tx certificate next) s h = ground arith
  other_effect io (retire handoff next_committee next_epoch root) s h = ground arith

  same-IsLocked : (s t : WalStore) → t.votes ≡ s.votes → t.locks ≡ s.locks → IsLocked s → IsLocked t
  same-IsLocked s t hv hl locked = record {
    covered = λ ck r d h. rw hl (locked.covered ck r d (rw hv at h));
  }

  call-IsLocked : (io : Io) (c : Call) (s : WalStore) → IsLocked s → IsLocked (call blake3 io c s).1
  call-IsLocked io (persist_vote conflict_key round phase digest) s locked =
      unfold call in
      elim (vote_effect io s conflict_key round phase digest) [
        | inl (hv, hl) ↦ same-IsLocked s _ hv hl locked
        | inr (hk, hv, hl) ↦ record {
          covered = λ ck r d h.
              rw hl (voted-covered s conflict_key round phase digest hk locked ck r d (rw hv at h));
        }
      ]
  call-IsLocked io (activate handoff snapshot) s locked =
      let (hv, hl) = other_effect io (activate handoff snapshot) s (λ a b c d e. cc) in
      same-IsLocked s _ hv hl locked
  call-IsLocked io (apply_verified tx certificate next) s locked =
      let (hv, hl) = other_effect io (apply_verified tx certificate next) s (λ a b c d e. cc) in
      same-IsLocked s _ hv hl locked
  call-IsLocked io (retire handoff next_committee next_epoch root) s locked =
      let (hv, hl) =
        other_effect io (retire handoff next_committee next_epoch root) s (λ a b c d e. cc) in
      same-IsLocked s _ hv hl locked

  pub run-IsLocked :
      (calls : List (Io × Call)) (s : WalStore) → IsLocked s → IsLocked (run blake3 calls s)
  unfolding run
  run-IsLocked [] s locked = locked
  run-IsLocked ((io, c) ∷ rest) s locked =
      run-IsLocked rest (call blake3 io c s).1 (call-IsLocked io c s locked)

  -- A store without votes is locked.
  pub IsLocked-of_no_votes : (s : WalStore) → s.votes ≡ [] → IsLocked s
  unfolding lookup
  IsLocked-of_no_votes s h = record { covered = λ ck r d e. absurd (cc (rw h at e)) }

  -- From a store without votes, whatever is called and however the writes go: two precommits recorded
  -- for one conflict, in any two rounds, are for the same digest, and the lock of the conflict is at
  -- that digest and no earlier round.
  pub precommits_agree :
      (calls : List (Io × Call)) (s : WalStore) (conflict_key : Digest) (round round' : ℕ)
      (digest digest' : Digest)
      → s.votes ≡ []
      → lookup (key conflict_key round phase_precommit) (run blake3 calls s).votes ≡ some digest
      → lookup (key conflict_key round' phase_precommit) (run blake3 calls s).votes ≡ some digest'
      → (digest ≡ digest') × Covers (lookup conflict_key (run blake3 calls s).locks) round digest
  precommits_agree calls s ck round round' digest digest' h0 h h' =
      let locked = run-IsLocked calls s (IsLocked-of_no_votes s h0) in
      let (l, e, hd, hr) = locked.covered ck round digest h in
      let (l', e', hd', hr') = locked.covered ck round' digest' h' in (cc, (l, e, hd, hr))
