-- ===== src/Scanner/Banner/Reading.antt =====
-- The reading loop: its end, and what it reads.
use ip_finder.Common.{
  true, not, ◌&&◌, ◌%◌, ◌⊎◌, inl, inr, sym, subst, ltb, lt-cases, ℕ, zero, suc, ◌+◌, ◌*◌, ◌-◌, ◌/◌,
  ◌^◌, ◌≤◌, ◌<◌, Bool, false, ◌||◌, [], ◌∷◌, ◌++◌, ◌≡◌, refl, ◌∙◌, leb, if-cases, is_empty, length,
  length-append, All, Option, some, arith,
}
use ip_finder.Common.Bytes.{Bytes, codes, contains, starts_with}
use ip_finder.Common.Int.{after_ms, ℤ, pos, is_negative, is_zero}
use ip_finder.Platform.{Sockets, wait_for_socket}
use ip_finder.Platform.Waiting.{WaitsAtMost, wait-WaitsAtMost}
use ip_finder.Scanner.Banner.{Round, read_loop, judge, banner_fuel, read_ssh_banner}

-- The bytes of the first `n` rounds.
abbrev pub received : (ℕ → Round) → ℕ → Bytes
received rounds zero = []
received rounds (suc n) = received rounds n ++ (rounds n).chunk

-- `recv` writes at most its buffer, and the clock does not run backwards.
pub record IsSteady (start : ℕ) (rounds : ℕ → Round) : Type 0 where
  pub chunk_fits : (i : ℕ) → length (rounds i).chunk ≤ 128
  pub not_before : (i : ℕ) → start ≤ (rounds i).now

-- Round `i` is in time and gives bytes.
abbrev pub gives_bytes : ℕ → (ℕ → Round) → ℕ → Bool
gives_bytes deadline rounds i =
    not (leb deadline (rounds i).now)
    && (not (is_negative (rounds i).poll || is_zero (rounds i).poll)
        && not (is_empty (rounds i).chunk))

-- A line, or as much as is read at most.
abbrev pub is_complete : Bytes → Bool
is_complete buffer = contains (codes "\n") buffer || leb 512 (length buffer)

-- The bytes of the first `n` rounds are all that can be read: each of these rounds gives bytes to
-- text that is not complete, and then the text is complete, or no more bytes come.
pub record IsBanner (deadline : ℕ) (rounds : ℕ → Round) (n : ℕ) : Type 0 where
  pub gives : (i : ℕ) → i < n → gives_bytes deadline rounds i ≡ true
  pub goes_on : (i : ℕ) → i < n → is_complete (received rounds i) ≡ false
  pub ends : (is_complete (received rounds n) ≡ true) ⊎ (gives_bytes deadline rounds n ≡ false)

-- The banner of a peer is determined by its rounds.
pub IsBanner-unique :
    (deadline : ℕ) (rounds : ℕ → Round) (n m : ℕ)
    → IsBanner deadline rounds n
    → IsBanner deadline rounds m
    → n ≡ m
IsBanner-unique deadline rounds n m a b = elim (lt-cases n m) [
  | inl lt ↦ absurd (ended n m a b lt)
  | inr (inl gt) ↦ absurd (ended m n b a gt)
  | inr (inr same) ↦ same
]
  where
    ended : (n m : ℕ) → IsBanner deadline rounds n → IsBanner deadline rounds m → n < m → ⊥
    ended n m a b lt = elim a.ends [
      | inl done ↦ cc (b.goes_on n lt, done)
      | inr stopped ↦ cc (b.gives n lt, stopped)
    ]

after_ms-le : (start limit : ℕ) → after_ms start limit ≤ start + limit * 1000000
unfolding after_ms
after_ms-le start limit =
    if-cases (λ d. d ≤ start + limit * 1000000) (ltb ((start + limit * 1000000) % 2 ^ 64) (2 ^ 63))
      _ _ (λ e. omega arith) (λ e. omega arith)

not_empty : (s : Bytes) → is_empty s ≡ false → 0 < length s
not_empty [] h = cc
not_empty (c ∷ s) h = omega arith

below_max : (n : ℕ) → leb 512 n ≡ false → n < 512
below_max n h = ground arith

or-false : (a b : Bool) → (a || b) ≡ false → b ≡ false
or-false a b h = ground arith

module _ (start limit bound : ℕ) (rounds : ℕ → Round) (steady : IsSteady start rounds)
    (within : limit ≤ bound) (short : bound < 2 ^ 31) where
  abbrev deadline : ℕ
  deadline = after_ms start limit

  -- The loop has ended with the bytes of some rounds, within the bounds.
  abbrev Ended : ℕ → Sockets → Option (Bytes × Sockets) → Type 0
  Ended most w o =
      (n : ℕ) × (w' : Sockets) × (o ≡ some (received rounds n, w'))
      × IsBanner deadline rounds n
      × (n ≤ most)
      × (length (received rounds n) < 640)
      × (w'.open_handles ≡ w.open_handles)
      × All (WaitsAtMost bound) w'.waits

  waited :
      (i : ℕ) (w : Sockets)
      → All (WaitsAtMost bound) w.waits
      → All
          (WaitsAtMost bound)
          (wait_for_socket (pos ((deadline - (rounds i).now) / 1000000)) (rounds i).poll w).1.waits
  waited i w h =
      wait-WaitsAtMost bound ((deadline - (rounds i).now) / 1000000) (rounds i).poll w short
        (omega (arith, steady.not_before i, after_ms-le start limit)) h

  waited-handles :
      (t rc : ℤ) (w : Sockets) → (wait_for_socket t rc w).1.open_handles ≡ w.open_handles
  unfolding wait_for_socket
  waited-handles t rc w = refl

  -- One chunk more is at most 128 bytes more, and at least one.
  longer : (i : ℕ) → length (received rounds (suc i)) ≤ length (received rounds i) + 128
  longer i = omega (arith, length-append (received rounds i) (rounds i).chunk, steady.chunk_fits i)

  grows :
      (i : ℕ)
      → is_empty (rounds i).chunk ≡ false
      → length (received rounds i) < length (received rounds (suc i))
  grows i h =
      omega
        (arith, length-append (received rounds i) (rounds i).chunk, not_empty (rounds i).chunk h)

  -- The rounds before `i` gave bytes to text that was not complete.
  abbrev Going : ℕ → Type 0
  Going i =
      ((j : ℕ) → j < i → gives_bytes deadline rounds j ≡ true)
      × ((j : ℕ) → j < i → is_complete (received rounds j) ≡ false)

  one_more : (P : ℕ → Type 0) (i : ℕ) → P i → ((j : ℕ) → j < i → P j) → (j : ℕ) → j < suc i → P j
  one_more P i now before j lt = elim (lt-cases j i) [
    | inl less ↦ before j less
    | inr (inl more) ↦ absurd (omega arith)
    | inr (inr same) ↦ subst P (sym same) now
  ]

  stopped-IsBanner :
      (i : ℕ) → Going i → gives_bytes deadline rounds i ≡ false → IsBanner deadline rounds i
  stopped-IsBanner i (g, o) e = record { gives = g; goes_on = o; ends = inr e }

  read_loop-Ended :
      (fuel i most : ℕ) (w0 w : Sockets)
      → Going i
      → is_complete (received rounds i) ≡ false
      → 512 < fuel + length (received rounds i)
      → length (received rounds i) < 512
      → i + fuel ≤ most
      → w.open_handles ≡ w0.open_handles
      → All (WaitsAtMost bound) w.waits
      → Ended most w0 (read_loop fuel rounds i deadline (received rounds i) w)
  unfolding read_loop
  read_loop-Ended zero i most w0 w going unfinished enough below few handles ws =
      absurd (omega arith)
  read_loop-Ended (suc fuel) i most w0 w going unfinished enough below few handles ws =
      let r = rounds i in
      let t = pos ((deadline - r.now) / 1000000) in
      let w' = (wait_for_socket t r.poll w).1 in
      let handles' = waited-handles t r.poll w ∙ handles in
      let ws' = waited i w ws in
      let text = received rounds (suc i) in
      if-cases (Ended most w0) (leb deadline r.now) _ _
        (λ late. (
          i,
          w,
          refl,
          stopped-IsBanner i going (ground arith),
          omega arith,
          omega arith,
          handles,
          ws,
        ))
        λ in_time.
          if-cases (Ended most w0) (is_negative r.poll || is_zero r.poll) _ _
            (λ idle. (
              i,
              w',
              refl,
              stopped-IsBanner i going (ground arith),
              omega arith,
              omega arith,
              handles',
              ws',
            ))
            λ ready.
              if-cases (Ended most w0) (is_empty r.chunk) _ _
                (λ nothing. (
                  i,
                  w',
                  refl,
                  stopped-IsBanner i going (ground arith),
                  omega arith,
                  omega arith,
                  handles',
                  ws',
                ))
                λ some_bytes.
                  let gives : gives_bytes deadline rounds i ≡ true = ground arith in
                  let going' : Going (suc i) = (
                    one_more (λ j. gives_bytes deadline rounds j ≡ true) i gives going.0,
                    one_more (λ j. is_complete (received rounds j) ≡ false) i unfinished going.1,
                  ) in
                  if-cases (Ended most w0) (is_complete text) _ _
                    (λ done. (
                      suc i,
                      w',
                      refl,
                      record { gives = going'.0; goes_on = going'.1; ends = inl done },
                      omega arith,
                      omega (arith, longer i),
                      handles',
                      ws',
                    ))
                    λ on.
                      read_loop-Ended fuel (suc i) most w0 w' going' on
                        (omega (arith, grows i some_bytes))
                        (below_max (length text)
                          (or-false (contains (codes "\n") text) (leb 512 (length text)) on))
                        (omega arith) handles' ws'

  -- Provided that `recv` keeps to its buffer, the clock does not run backwards, the timeout is at
  -- most `bound`, which is below 2^31 ms, and no wait so far was longer than `bound`: reading a
  -- banner always ends, whatever the peer sends, within 513 rounds and 639 bytes; the result judges
  -- all the bytes that come in time, up to a line or 512 bytes; no wait is longer than `bound`, and no socket is opened or
  -- closed.
  pub read_ssh_banner_lem :
      (ip : Bytes) (w : Sockets)
      → All (WaitsAtMost bound) w.waits
      → (n : ℕ) × (w' : Sockets) × (read_ssh_banner start rounds ip limit w
          ≡ some (judge ip (received rounds n), w'))
        × IsBanner (after_ms start limit) rounds n
        × (n ≤ 513)
        × (length (received rounds n) < 640)
        × (w'.open_handles ≡ w.open_handles)
        × All (WaitsAtMost bound) w'.waits
  unfolding read_ssh_banner
  read_ssh_banner_lem ip w ws =
      let (n, w', e, all, few, small, handles, ws') =
        read_loop-Ended banner_fuel 0 513 w w
          ((λ j lt. absurd (omega arith)), λ j lt. absurd (omega arith))
          (unfold contains starts_with in refl) (omega arith) (omega arith) (omega arith) refl ws in
      (n, w', rw (e, read_ssh_banner), all, few, small, handles, ws')
