-- ===== src/Stream/Timeout.antt =====
-- The waits of the input stream of stream_apis.cc.
use device_blackshark_penros.Base.{
  Bool, Bool-cases, Option, arith, false, inl, inr, leb, refl, some, suc, true, zero, ℕ, ◌%◌, ◌+◌,
  ◌-◌, ◌<◌, ◌≡◌,
}
use device_blackshark_penros.Port.Types.{BluetoothStreamState}
use device_blackshark_penros.Stream.In.{in_state, in_state_transition_timeout, in_wait}
use device_blackshark_penros.Stream.Interface.{AudioPort}
use device_blackshark_penros.Stream.Types.{StreamIn, input_state_timeout_ms}

module _ {P : Type 0} (port : AudioPort P) (waits : BluetoothStreamState → Bool)
    (others : StreamIn P → StreamIn P) where
  -- The stream after other calls had so many milliseconds.
  abbrev pub after : ℕ → StreamIn P → StreamIn P
  after zero s = s
  after (suc k) s = after k (others s)

  -- The result of a wait from so many milliseconds: the port leaves the state within them, and the
  -- wait ends at the first moment that it has, or it is in the state at each of them.
  pub data Waited (limit : ℕ) (s : StreamIn P) (r : Option (Bool × StreamIn P)) : Type 0 where
    settled :
        (k : ℕ)
        → k < limit
        → waits (in_state port (after k s)) ≡ false
        → ((j : ℕ) → j < k → waits (in_state port (after j s)) ≡ true)
        → r ≡ some (true, after k s)
        → Waited limit s r
    stuck :
        ((j : ℕ) → j < limit → waits (in_state port (after j s)) ≡ true)
        → r ≡ some (false, after limit s)
        → Waited limit s r

  Waited-later :
      (limit : ℕ) (s : StreamIn P) (r : Option (Bool × StreamIn P))
      → waits (in_state port s) ≡ true
      → Waited limit (others s) r
      → Waited (suc limit) s r
  Waited-later limit s r h (settled k lt out held e) = settled (suc k) (omega arith) out go e
    where
      go : (j : ℕ) → j < suc k → waits (in_state port (after j s)) ≡ true
      go zero l = h
      go (suc j) l = held j (omega arith)
  Waited-later limit s r h (stuck held e) = stuck go e
    where
      go : (j : ℕ) → j < suc limit → waits (in_state port (after j s)) ≡ true
      go zero l = h
      go (suc j) l = held j (omega arith)

  transition-Waited :
      (fuel timeout_ms : ℕ) (s : StreamIn P)
      → timeout_ms < fuel
      → 0 < timeout_ms
      → timeout_ms < 65536
      → Waited timeout_ms s (in_state_transition_timeout port fuel waits others s timeout_ms)
  unfolding in_state_transition_timeout
  transition-Waited fuel zero s f pos u = absurd (omega arith)
  transition-Waited zero (suc left) s f pos u = absurd (omega arith)
  transition-Waited (suc fuel) (suc zero) s f pos u = elim (Bool-cases (waits (in_state port s))) [
    | inr e ↦ rw e (settled zero (omega arith) e (λ j l. absurd (omega arith)) refl)
    | inl e ↦ rw e (stuck (λ j l. held j l e) refl)
  ]
    where
      held :
          (j : ℕ)
          → j < 1
          → waits (in_state port s) ≡ true
          → waits (in_state port (after j s)) ≡ true
      held zero l e = e
      held (suc j) l e = absurd (omega arith)
  transition-Waited (suc fuel) (suc (suc left)) s f pos u =
      let less : (suc (suc left) + 65536 - 1) % 65536 ≡ suc left = omega arith in
      let more : leb (suc left) 0 ≡ false = ground arith in
      elim (Bool-cases (waits (in_state port s))) [
        | inr e ↦ rw e (settled zero (omega arith) e (λ j l. absurd (omega arith)) refl)
        | inl e ↦
            rw (e, less, more)
              (Waited-later (suc left) s _ e (
                transition-Waited fuel (suc left) (others s) (omega arith) (omega arith)
                  (omega arith)))
      ]

  -- A wait always returns: after at most 20 milliseconds, with the answer whether the port has left
  -- the state, and at the first millisecond at which it has.
  pub in_wait-Waited :
      (s : StreamIn P) → Waited input_state_timeout_ms s (in_wait port waits others s)
  unfolding in_wait
  in_wait-Waited s =
      transition-Waited (input_state_timeout_ms + 1) input_state_timeout_ms s (omega arith)
        (omega arith) (omega arith)
