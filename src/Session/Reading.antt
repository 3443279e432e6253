-- ===== src/Session/Reading.antt =====
-- What the loop of InReadPcmData of BluetoothAudioSession.cpp transfers.
use device_blackshark_penros.Base.{
  Bool, Bool-cases, List, Option-cases, [], ap, arith, false, if◌then◌else◌, inl, inr, leb, length,
  length-append, ltb, ltb→lt, lt→ltb, refl, suc, take, true, zero, ℕ, ◌++◌, ◌+◌, ◌-◌, ◌<◌, ◌∷◌, ◌≡◌,
  ◌≤◌,
}
use device_blackshark_penros.Session.Core.{is_session_ready}
use device_blackshark_penros.Session.Pcm.{
  PcmResult, ReadRound, at_most, faulted, fmq_timeout_ms, in_read_loop, in_read_pcm_data, poll_ms,
  returned, with_queue,
}
use device_blackshark_penros.Session.Transfer.{IsFault}

-- How InReadPcmData ends: with no more bytes than asked for, and as many in the caller's buffer; or
-- with a fault, in a round that finds the session ready and without a queue.
pub data Reads {ℓ} {A : Type ℓ} (rounds : ℕ → ReadRound A) (bytes from : ℕ) (r : PcmResult A)
    : Type ℓ where
  reads :
      (total : ℕ) (out : List A)
      → r ≡ returned total out
      → from ≤ total
      → total ≤ bytes
      → length out ≡ total
      → Reads rounds bytes from r
  read_faults : (i : ℕ) → IsFault (rounds i).seen → r ≡ faulted → Reads rounds bytes from r

length-take_le {ℓ} : {A : Type ℓ} (n : ℕ) (xs : List A) → n ≤ length xs → length (take n xs) ≡ n
length-take_le zero xs h = refl
length-take_le (suc n) [] h = absurd (omega arith)
length-take_le (suc n) (x ∷ xs) h = ap suc (length-take_le n xs (omega arith))

at_most-le : (limit n : ℕ) → at_most limit n ≤ n
at_most-le limit n = ground arith

module _ {ℓ} {A : Type ℓ} (rounds : ℕ → ReadRound A) (bytes : ℕ) where
  read_stops :
      (from total : ℕ) (out : List A)
      → from ≤ total
      → total ≤ bytes
      → length out ≡ total
      → Reads rounds bytes from (returned total out)
  read_stops from total out l h q = reads total out refl l h q

  -- The start of a round, before what it does with the queue.
  found_reading :
      (i total : ℕ) (out : List A) (round : PcmResult A)
      → total ≤ bytes
      → length out ≡ total
      → Reads rounds bytes total round
      → Reads rounds bytes total (with_queue (rounds i).seen (returned total out) round)
  unfolding with_queue
  found_reading i total out round h q w = elim (Bool-cases (is_session_ready (rounds i).seen)) [
    | inr e ↦ rw e (read_stops total total out (omega arith) h q)
    | inl e ↦ elim (Option-cases (rounds i).seen.data_mq) [
      | inl absent ↦ rw (e, absent) (read_faults i (e, absent) refl)
      | inr (mq, there) ↦ rw (e, there) w
    ]
  ]

  filled_more :
      (n total : ℕ) (out content : List A)
      → length out ≡ total
      → n ≤ length content
      → length (out ++ take n content) ≡ total + n
  filled_more n total out content q h =
      omega (arith, length-append out (take n content), length-take_le n content h)

  at_most_fits :
      (content : List A) (total : ℕ)
      → total < bytes
      → total + at_most (bytes - total) (length content) ≤ bytes
  at_most_fits content total h = ground arith

  -- A round that reads: either the transfer is complete, or the loop goes on.
  read_more :
      (content : List A) (total : ℕ) (out : List A) (later : PcmResult A)
      → total < bytes
      → length out ≡ total
      → let n = at_most (bytes - total) (length content) in
        (total + n < bytes
          → length (out ++ take n content) ≡ total + n
          → Reads rounds bytes (total + n) later)
        → Reads rounds bytes total
            (if ltb (total + n) bytes then later else returned (total + n) (out ++ take n content))
  read_more content total out later h q go =
      let n = at_most (bytes - total) (length content) in
      let more : length (out ++ take n content) ≡ total + n =
        filled_more n total out content q (at_most-le _ _) in
      elim (Bool-cases (ltb (total + n) bytes)) [
        | inl e ↦ rw e (later_from (go (ltb→lt _ _ e) more))
        | inr e ↦ rw e (
            read_stops total (total + n) (out ++ take n content) (omega arith)
              (at_most_fits content total h) more)
      ]
    where
      later_from :
          Reads rounds bytes (total + at_most (bytes - total) (length content)) later
          → Reads rounds bytes total later
      later_from (reads read out e l w q) = reads read out e (omega arith) w q
      later_from (read_faults i f e) = read_faults i f e

  in_read_loop-Reads :
      (fuel i total timeout_ms : ℕ) (out : List A)
      → bytes - total + timeout_ms < fuel
      → total < bytes
      → length out ≡ total
      → Reads rounds bytes total (in_read_loop rounds bytes fuel i total timeout_ms out)
  unfolding in_read_loop
  in_read_loop-Reads zero i total timeout_ms out f h q = absurd (omega arith)
  in_read_loop-Reads (suc fuel) i total timeout_ms out f h q =
      let stop = read_stops total total out (omega arith) (omega arith) q in
      found_reading i total out _ (omega arith) q
        (elim (Bool-cases (ltb 0 (length (rounds i).content))) [
          | inr e0 ↦ rw e0 (elim (Bool-cases (leb poll_ms timeout_ms)) [
            | inr late ↦ rw late stop
            | inl early ↦
                rw (early, lt→ltb total bytes h)
                  (in_read_loop-Reads fuel (i + 1) total (timeout_ms - poll_ms) out (ground arith) h
                    q)
          ])
          | inl e0 ↦ rw e0 (elim (Bool-cases (rounds i).transfers) [
            | inr bad ↦ rw bad stop
            | inl good ↦ rw good (
                read_more (rounds i).content total out _ h q (λ fit q'.
                  in_read_loop-Reads fuel (i + 1)
                    (total + at_most (bytes - total) (length (rounds i).content)) timeout_ms
                    (out
                      ++ take (at_most (bytes - total) (length (rounds i).content))
                          (rounds i).content)
                    (ground arith) fit q'))
          ])
        ])

  -- InReadPcmData ends, whatever the session and the queue do between its rounds: either with at most
  -- the bytes asked for, and with as many bytes in the caller's buffer as it reports; or it
  -- dereferences a null queue, in a round in which the session is ready and has no queue.
  pub in_read_pcm_data-Reads :
      (buffer_is_null : Bool) → Reads rounds bytes 0 (in_read_pcm_data rounds bytes buffer_is_null)
  unfolding in_read_pcm_data
  in_read_pcm_data-Reads true = read_stops 0 0 [] (omega arith) (omega arith) refl
  in_read_pcm_data-Reads false = elim (Bool-cases (leb bytes 0)) [
    | inl e ↦ rw e (read_stops 0 0 [] (omega arith) (omega arith) refl)
    | inr e ↦ rw e (
        in_read_loop-Reads (bytes + fmq_timeout_ms + 1) 0 0 fmq_timeout_ms [] (omega arith)
          (ground arith) refl)
  ]
