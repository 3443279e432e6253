-- ===== src/Session/Transfer.antt =====
-- What the loop of OutWritePcmData of BluetoothAudioSession.cpp transfers.
use device_blackshark_penros.Base.{
  Bool, Bool-cases, List, Option-cases, [], ap, arith, drop, false, if◌then◌else◌, inl, inr,
  is_some, leb, leb→le, ltb, ltb→lt, lt→ltb, none, refl, suc, take, take-add, true, zero, ℕ, ◌++◌,
  ◌+◌, ◌-◌, ◌<◌, ◌≡◌, ◌≤◌,
}
use device_blackshark_penros.Session.Core.{Session, is_offload, is_session_ready}
use device_blackshark_penros.Session.Pcm.{
  PcmResult, Round, at_most, faulted, fmq_timeout_ms, out_write_loop, out_write_pcm_data, poll_ms,
  returned, with_queue,
}

-- A round that dereferences a queue that is not there.
abbrev pub IsFault : Session → Type 0
IsFault s = (is_session_ready s ≡ true) × (s.data_mq ≡ none)

-- How a transfer ends: no more than asked for, and the queue holds the first bytes of the buffer; or
-- with a fault, in a round that finds the session ready and without a queue.
pub data Writes {ℓ} {A : Type ℓ} (rounds : ℕ → Round) (buffer : List A) (bytes from : ℕ)
    (r : PcmResult A) : Type ℓ where
  writes :
      (total : ℕ) (queue : List A)
      → r ≡ returned total queue
      → from ≤ total
      → total ≤ bytes
      → queue ≡ take total buffer
      → Writes rounds buffer bytes from r
  faults : (i : ℕ) → IsFault (rounds i).seen → r ≡ faulted → Writes rounds buffer bytes from r

module _ {ℓ} {A : Type ℓ} (rounds : ℕ → Round) (buffer : List A) (bytes : ℕ) where
  stops :
      (total : ℕ) (queue : List A)
      → total ≤ bytes
      → queue ≡ take total buffer
      → Writes rounds buffer bytes total (returned total queue)
  stops total queue h q = writes total queue refl (omega arith) h q

  from_later :
      (lo hi : ℕ) {r : PcmResult A}
      → lo ≤ hi
      → Writes rounds buffer bytes hi r
      → Writes rounds buffer bytes lo r
  from_later lo hi h (writes total queue e l w q) = writes total queue e (omega arith) w q
  from_later lo hi h (faults i f e) = faults i f e

  -- The start of a round, before what it does with the queue.
  found :
      (i total : ℕ) (queue : List A) (round : PcmResult A)
      → total ≤ bytes
      → queue ≡ take total buffer
      → Writes rounds buffer bytes total round
      → Writes rounds buffer bytes total (with_queue (rounds i).seen (returned total queue) round)
  unfolding with_queue
  found i total queue round h q w = elim (Bool-cases (is_session_ready (rounds i).seen)) [
    | inr e ↦ rw e (stops total queue h q)
    | inl e ↦ elim (Option-cases (rounds i).seen.data_mq) [
      | inl absent ↦ rw (e, absent) (faults i (e, absent) refl)
      | inr (mq, there) ↦ rw (e, there) w
    ]
  ]

  written_prefix :
      (n total : ℕ) (queue : List A)
      → queue ≡ take total buffer
      → queue ++ take n (drop total buffer) ≡ take (total + n) buffer
  written_prefix n total queue q = rw q (take-add total n buffer)

  -- A round that writes: either the transfer is complete, or the loop goes on.
  write_more :
      (available total : ℕ) (queue : List A) (later : PcmResult A)
      → total < bytes
      → queue ≡ take total buffer
      → ltb 0 available ≡ true
      → let n = at_most (bytes - total) available in
        (0 < n
          → total + n < bytes
          → queue ++ take n (drop total buffer) ≡ take (total + n) buffer
          → Writes rounds buffer bytes (total + n) later)
        → Writes rounds buffer bytes total (
            if ltb (total + n) bytes
            then later
            else returned (total + n) (queue ++ take n (drop total buffer)))
  write_more available total queue later h q pos go =
      elim (Bool-cases (ltb (total + at_most (bytes - total) available) bytes)) [
        | inl more ↦ rw more (
            from_later total (total + at_most (bytes - total) available) (omega arith)
              (go (ground arith) (ltb→lt _ _ more) (written_prefix _ total queue q)))
        | inr done ↦ rw done (
            from_later total (total + at_most (bytes - total) available) (omega arith) (
              stops (total + at_most (bytes - total) available) _ (ground arith)
                (written_prefix _ total queue q)))
      ]

  out_write_loop-Writes :
      (fuel i total timeout_ms : ℕ) (queue : List A)
      → bytes - total + timeout_ms < fuel
      → total < bytes
      → queue ≡ take total buffer
      → Writes rounds buffer bytes total
          (out_write_loop rounds buffer bytes fuel i total timeout_ms queue)
  unfolding out_write_loop
  out_write_loop-Writes zero i total timeout_ms queue f h q = absurd (omega arith)
  out_write_loop-Writes (suc fuel) i total timeout_ms queue f h q =
      found i total queue _ (omega arith) q (elim (Bool-cases (ltb 0 (rounds i).available)) [
        | inr e0 ↦ rw e0 (elim (Bool-cases (leb poll_ms timeout_ms)) [
          | inr late ↦ rw late (stops total queue (omega arith) q)
          | inl early ↦
              rw (early, lt→ltb total bytes h)
                (out_write_loop-Writes fuel (i + 1) total (timeout_ms - poll_ms) queue
                  (ground arith) h q)
        ])
        | inl e0 ↦ rw e0 (elim (Bool-cases (rounds i).transfers) [
          | inr bad ↦ rw bad (stops total queue (omega arith) q)
          | inl good ↦ rw good (
              write_more (rounds i).available total queue _ h q e0 (λ pos fit q'.
                out_write_loop-Writes fuel (i + 1)
                  (total + at_most (bytes - total) (rounds i).available) timeout_ms
                  (queue ++ take (at_most (bytes - total) (rounds i).available) (drop total buffer))
                  (omega arith) fit q'))
        ])
      ])

  -- OutWritePcmData ends, whatever the session and the queue do between its rounds: either it reports
  -- at most the bytes asked for, and the queue was given exactly the first so many bytes of the
  -- buffer, in order; or it dereferences a null queue, in a round in which the session is ready and
  -- has no queue.
  pub out_write_pcm_data-Writes :
      (buffer_is_null : Bool)
      → Writes rounds buffer bytes 0 (out_write_pcm_data rounds buffer bytes buffer_is_null)
  unfolding out_write_pcm_data
  out_write_pcm_data-Writes true = stops 0 [] (omega arith) refl
  out_write_pcm_data-Writes false = elim (Bool-cases (leb bytes 0)) [
    | inl e ↦ rw e (stops 0 [] (omega arith) refl)
    | inr e ↦ rw e (
        out_write_loop-Writes (bytes + fmq_timeout_ms + 1) 0 0 fmq_timeout_ms [] (omega arith)
          (ground arith) refl)
  ]

  -- A round in which the session is ready and has a queue, which has room and takes what it is given.
  abbrev pub IsFlowing : Round → Type 0
  IsFlowing r =
      (is_session_ready r.seen ≡ true)
      × (is_some r.seen.data_mq ≡ true)
      × (0 < r.available)
      × (r.transfers ≡ true)

  at_most_fills :
      (available total : ℕ)
      → total < bytes
      → ltb (total + at_most (bytes - total) available) bytes ≡ false
      → total + at_most (bytes - total) available ≡ bytes
  at_most_fills available total h e = ground arith

  out_write_loop_complete :
      ((j : ℕ) → IsFlowing (rounds j))
      → (fuel i total timeout_ms : ℕ) (queue : List A) → bytes - total + timeout_ms < fuel
      → total < bytes
      → (q : List A) × (out_write_loop rounds buffer bytes fuel i total timeout_ms queue
          ≡ returned bytes q)
  unfolding out_write_loop
  out_write_loop_complete all zero i total timeout_ms queue f h = absurd (omega arith)
  out_write_loop_complete all (suc fuel) i total timeout_ms queue f h =
      let (up, there, room, good) = all i in
      let n = at_most (bytes - total) (rounds i).available in
      unfold with_queue in
      rw (up, there, lt→ltb 0 _ room, good)
        (elim (Bool-cases (ltb (total + n) bytes)) [
          | inl more ↦ rw more (
              out_write_loop_complete all fuel (i + 1) (total + n) timeout_ms
                (queue ++ take n (drop total buffer)) (ground arith) (ltb→lt _ _ more))
          | inr done ↦ rw done (
            queue ++ take n (drop total buffer),
            ap (λ k. returned k (queue ++ take n (drop total buffer)))
                (at_most_fills (rounds i).available total h done),
          )
        ])

  out_write_pcm_data_whole :
      ((j : ℕ) → IsFlowing (rounds j))
      → 0 < bytes
      → (q : List A) × (out_write_pcm_data rounds buffer bytes false ≡ returned bytes q)
  unfolding out_write_pcm_data
  out_write_pcm_data_whole all pos = elim (Bool-cases (leb bytes 0)) [
    | inl e ↦ absurd (omega (arith, leb→le bytes 0 e))
    | inr e ↦ rw e (
        out_write_loop_complete all (bytes + fmq_timeout_ms + 1) 0 0 fmq_timeout_ms [] (omega arith)
          pos)
  ]

  -- Where every round finds the session ready and with a queue that has room and takes what it is
  -- given, all bytes are written.
  pub out_write_pcm_data_complete :
      ((j : ℕ) → IsFlowing (rounds j))
      → 0 < bytes
      → out_write_pcm_data rounds buffer bytes false ≡ returned bytes (take bytes buffer)
  out_write_pcm_data_complete all pos =
      let (q, e) = out_write_pcm_data_whole all pos in
      elim (out_write_pcm_data-Writes false) [
        | writes total queue e' _ _ p ↦ ground (arith, e, e', p)
        | faults i _ e' ↦ absurd (ground (arith, e, e'))
      ]

-- A round of a software session has a queue where the session is ready.
pub software-IsFault : (s : Session) → is_offload s.session_type ≡ false → IsFault s → ⊥
unfolding is_session_ready
software-IsFault s h (ready, absent) = ground arith

-- So a call on a software session returns, and there OutWritePcmData never faults.
pub software-Writes {ℓ} :
    {A : Type ℓ} {rounds : ℕ → Round} {buffer : List A} {bytes from : ℕ} {r : PcmResult A}
    → ((i : ℕ) → is_offload (rounds i).seen.session_type ≡ false)
    → Writes rounds buffer bytes from r
    → (total : ℕ) × (queue : List A) × (r ≡ returned total queue)
      × (total ≤ bytes)
      × (queue ≡ take total buffer)
software-Writes soft (writes total queue e _ h q) = (total, queue, e, h, q)
software-Writes {rounds = rounds} soft (faults i f e) =
    absurd (software-IsFault (rounds i).seen (soft i) f)
