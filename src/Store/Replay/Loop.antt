-- ===== src/Store/Replay/Loop.antt =====
-- The loop of `replay_wal`: it ends, and a log may be replayed in two parts.
use avangard.Prelude.{
  ℕ, zero, suc, ◌+◌, ◌≤◌, ◌<◌, ◌≡◌, refl, sym, ◌∙◌, inl, inr, Option, some, List, [], ◌∷◌, ◌++◌,
  length, length-append, Result, Result-cases, ok, err, arith,
}
use avangard.Store.Types.{Digest, Error, ReplayState}
use avangard.Store.Record.{read_record}
use avangard.Store.Record.Framing.{read_record_shortens, read_record-append}
use avangard.Store.Replay.{replay_frame, replay_step, replay_loop}

module _ (blake3 : List ℕ → Digest) (committee : Digest) (epoch : ℕ) where
  replay_step_shortens :
      (sequence : ℕ) (state : Option ReplayState) (bytes : List ℕ) {next : ReplayState}
      {rest : List ℕ}
      → replay_step blake3 committee epoch sequence state bytes ≡ ok (next, rest)
      → length rest < length bytes
  unfolding replay_step
  replay_step_shortens sequence state bytes h =
      elim (Result-cases (read_record blake3 sequence bytes)) [
        | inl (frame, e) ↦ ground (
          arith,
          read_record_shortens blake3 sequence bytes e,
          Result-cases (replay_frame committee epoch sequence state frame.kind frame.payload),
        )
        | inr (x, e) ↦ absurd (ground arith)
      ]

  replay_step-append :
      (sequence : ℕ) (state : Option ReplayState) (bytes more : List ℕ) {next : ReplayState}
      {rest : List ℕ}
      → replay_step blake3 committee epoch sequence state bytes ≡ ok (next, rest)
      → replay_step blake3 committee epoch sequence state (bytes ++ more) ≡ ok (next, rest ++ more)
  unfolding replay_step
  replay_step-append sequence state bytes more h =
      elim (Result-cases (read_record blake3 sequence bytes)) [
        | inl (frame, e) ↦ ground (
          arith,
          read_record-append blake3 sequence bytes more e,
          Result-cases (replay_frame committee epoch sequence state frame.kind frame.payload),
        )
        | inr (x, e) ↦ absurd (ground arith)
      ]

  -- One round that goes on, and one that fails.
  round_ok :
      (fuel sequence : ℕ) (state : Option ReplayState) (b : ℕ) (bs : List ℕ) {next : ReplayState}
      {rest : List ℕ}
      → replay_step blake3 committee epoch sequence state (b ∷ bs) ≡ ok (next, rest)
      → replay_loop blake3 committee epoch (suc fuel) sequence state (b ∷ bs)
        ≡ replay_loop blake3 committee epoch fuel (sequence + 1) (some next) rest
  unfolding replay_loop
  round_ok fuel sequence state b bs e = rw (e, replay_loop)

  round_err :
      (fuel sequence : ℕ) (state : Option ReplayState) (b : ℕ) (bs : List ℕ) {x : Error}
      → replay_step blake3 committee epoch sequence state (b ∷ bs) ≡ err x
      → replay_loop blake3 committee epoch (suc fuel) sequence state (b ∷ bs) ≡ some (err x)
  unfolding replay_loop
  round_err fuel sequence state b bs e = rw (e, replay_loop)

  -- With a round for each byte or more, the loop ends with a result: on any bytes, from any state.
  pub replay_loop_total :
      (fuel sequence : ℕ) (state : Option ReplayState) (bytes : List ℕ)
      → length bytes ≤ fuel
      → (r : Result Error (ℕ × Option ReplayState)) × (replay_loop blake3 committee epoch fuel
            sequence state bytes
          ≡ some r)
  replay_loop_total fuel sequence state [] h = (ok (sequence, state), unfold replay_loop in refl)
  replay_loop_total zero sequence state (b ∷ bs) h = absurd (omega arith)
  replay_loop_total (suc fuel) sequence state (b ∷ bs) h =
      elim (Result-cases (replay_step blake3 committee epoch sequence state (b ∷ bs))) [
        | inl ((next, rest), e) ↦
            let (r, ends) =
              replay_loop_total fuel (sequence + 1) (some next) rest
                (omega (arith, replay_step_shortens sequence state (b ∷ bs) e)) in
            (r, round_ok fuel sequence state b bs e ∙ ends)
        | inr (x, e) ↦ (err x, round_err fuel sequence state b bs e)
      ]

  -- More fuel changes nothing.
  pub replay_loop_fuel :
      (f g sequence : ℕ) (state : Option ReplayState) (bytes : List ℕ)
      → length bytes ≤ f
      → length bytes ≤ g
      → replay_loop blake3 committee epoch f sequence state bytes
        ≡ replay_loop blake3 committee epoch g sequence state bytes
  replay_loop_fuel f g sequence state [] hf hg = unfold replay_loop in refl
  replay_loop_fuel zero g sequence state (b ∷ bs) hf hg = absurd (omega arith)
  replay_loop_fuel (suc f) zero sequence state (b ∷ bs) hf hg = absurd (omega arith)
  replay_loop_fuel (suc f) (suc g) sequence state (b ∷ bs) hf hg =
      elim (Result-cases (replay_step blake3 committee epoch sequence state (b ∷ bs))) [
        | inl ((next, rest), e) ↦
            let shorter : length rest < suc (length bs) =
              replay_step_shortens sequence state (b ∷ bs) e in
            round_ok f sequence state b bs e
            ∙ replay_loop_fuel f g (sequence + 1) (some next) rest (omega arith) (omega arith)
            ∙ sym (round_ok g sequence state b bs e)
        | inr (x, e) ↦ round_err f sequence state b bs e ∙ sym (round_err g sequence state b bs e)
      ]

  -- Where the first bytes replay to a state, what follows is replayed from there.
  pub replay_loop-append :
      (f g sequence : ℕ) (state : Option ReplayState) (bytes more : List ℕ) (sequence' : ℕ)
      (state' : Option ReplayState)
      → replay_loop blake3 committee epoch f sequence state bytes ≡ some (ok (sequence', state'))
      → length bytes ≤ f
      → length (bytes ++ more) ≤ g
      → replay_loop blake3 committee epoch g sequence state (bytes ++ more)
        ≡ replay_loop blake3 committee epoch g sequence' state' more
  replay_loop-append f g sequence state [] more sequence' state' h hf hg = unfold replay_loop in cc
  replay_loop-append zero g sequence state (b ∷ bs) more sequence' state' h hf hg =
      absurd (omega arith)
  replay_loop-append (suc f) zero sequence state (b ∷ bs) more sequence' state' h hf hg =
      absurd (omega arith)
  replay_loop-append (suc f) (suc g) sequence state (b ∷ bs) more sequence' state' h hf hg =
      elim (Result-cases (replay_step blake3 committee epoch sequence state (b ∷ bs))) [
        | inl ((next, rest), e) ↦
            let shorter : length rest < suc (length bs) =
              replay_step_shortens sequence state (b ∷ bs) e in
            let whole : length (rest ++ more) ≤ g =
              omega (arith, length-append rest more, length-append bs more) in
            round_ok g sequence state b (bs ++ more)
              (replay_step-append sequence state (b ∷ bs) more e)
            ∙ replay_loop-append f g (sequence + 1) (some next) rest more sequence' state'
                (sym (round_ok f sequence state b bs e) ∙ h) (omega arith) whole
            ∙ replay_loop_fuel g (suc g) sequence' state' more
                (omega (arith, length-append bs more)) (omega (arith, length-append bs more))
        | inr (x, e) ↦ absurd (cc (round_err f sequence state b bs e))
      ]

  -- The last record of a log.
  pub last_round :
      (fuel sequence : ℕ) (state : Option ReplayState) (bytes : List ℕ) {next : ReplayState}
      → replay_step blake3 committee epoch sequence state bytes ≡ ok (next, [])
      → 0 < length bytes
      → length bytes ≤ fuel
      → replay_loop blake3 committee epoch fuel sequence state bytes
        ≡ some (ok (sequence + 1, some next))
  last_round fuel sequence state [] e h k = absurd (omega arith)
  last_round zero sequence state (b ∷ bs) e h k = absurd (omega arith)
  last_round (suc fuel) sequence state (b ∷ bs) e h k =
      round_ok fuel sequence state b bs e ∙ (unfold replay_loop in refl)

  -- A record that fails, with no record behind it.
  pub last_error :
      (fuel sequence : ℕ) (state : Option ReplayState) (bytes : List ℕ) {x : Error}
      → replay_step blake3 committee epoch sequence state bytes ≡ err x
      → 0 < length bytes
      → length bytes ≤ fuel
      → replay_loop blake3 committee epoch fuel sequence state bytes ≡ some (err x)
  last_error fuel sequence state [] e h k = absurd (omega arith)
  last_error zero sequence state (b ∷ bs) e h k = absurd (omega arith)
  last_error (suc fuel) sequence state (b ∷ bs) e h k = round_err fuel sequence state b bs e
