-- ===== src/Scanner/Connect/Ownership.antt =====
-- Who owns the socket after `tcp_connect`, and when it reports a connection.
use ip_finder.Common.{
  ℕ, false, List, ◌∷◌, ◌≡◌, ◌≢◌, ◌⊎◌, inl, inr, refl, ◌==◌, ==_refl, none, some, is_some, arith,
  if-cases, not, ◌&&◌, if◌then◌else◌,
}
use ip_finder.Common.Bytes.{Bytes, before}
use ip_finder.Common.Int.{ℤ, is_negative, is_zero}
use ip_finder.Inet.{Inet}
use ip_finder.Platform.{Socket, Sockets, open_socket, close_socket, wait_for_socket}
use ip_finder.Scanner.Connect.{
  ConnectResult, connected, timed_out, error, classify, wsaewouldblock, wsaeinprogress, Answers,
  Attempt, after_poll, after_connect, tcp_connect, tcp_probe,
}

-- A connected attempt hands over one new handle; any other leaves the handles as they were.
abbrev pub Owns : List ℕ → Attempt → Type 0
Owns handles a =
    ((a.result ≡ connected)
      × ((h : ℕ) × (a.out_socket ≡ some h) × (a.sockets.open_handles ≡ h ∷ handles)))
    ⊎ ((a.result ≢ connected) × (a.out_socket ≡ none) × (a.sockets.open_handles ≡ handles))

pub classify-connected : (code : ℕ) → classify code ≡ connected → code ≡ 0
unfolding classify
classify-connected code h = ground arith

classify-ne-connected : (code : ℕ) → code ≢ 0 → classify code ≢ connected
classify-ne-connected code ne e = ne (classify-connected code e)

module _ (a : Answers) (h : ℕ) (handles : List ℕ) where
  -- Closing the socket on the way out of a failed attempt.
  closed-Owns :
      (r : ConnectResult) (w : Sockets)
      → r ≢ connected
      → w.open_handles ≡ h ∷ handles
      → Owns handles
          (record { result = r; out_socket = none; sockets = (close_socket (some h) w).1 })
  unfolding close_socket
  closed-Owns r w ne e = inr (ne, refl, rw e (ground (arith, ==_refl h)))

  after_poll-Owns :
      (rc : ℤ) (w : Sockets)
      → w.open_handles ≡ h ∷ handles
      → Owns handles (after_poll a (some h) rc w)
  unfolding after_poll
  after_poll-Owns rc w e =
      if-cases (Owns handles) (is_zero rc) _ _ (λ _. closed-Owns timed_out w (λ q. cc) e)
        λ _.
          if-cases (Owns handles) (is_negative rc) _ _ (λ _. closed-Owns error w (λ q. cc) e)
            λ _.
              if-cases (Owns handles) (not a.read_so_error) _ _
                (λ _. closed-Owns error w (λ q. cc) e)
                λ _.
                  if-cases (Owns handles) (not (a.so_error == 0)) _ _
                    (λ ne.
                      closed-Owns (classify a.so_error) w
                        (classify-ne-connected a.so_error (λ z. ground arith)) e)
                    (λ _. inl (refl, (h, refl, e)))

  after_connect-Owns :
      (timeout : ℤ) (w : Sockets)
      → (a.connected_at_once ≡ false → a.connect_error ≢ 0)
      → w.open_handles ≡ h ∷ handles
      → Owns handles (after_connect a timeout (some h) w)
  unfolding after_connect wait_for_socket
  after_connect-Owns timeout w sure e =
      if-cases (Owns handles) a.connected_at_once _ _ (λ _. inl (refl, (h, refl, e)))
        λ failed.
          if-cases (Owns handles)
            (not (a.connect_error == wsaewouldblock) && not (a.connect_error == wsaeinprogress)) _ _
            (λ _.
              closed-Owns (classify a.connect_error) w
                (classify-ne-connected a.connect_error (sure failed)) e)
            (λ _. after_poll-Owns a.poll _ e)

module _ (net : Inet) (a : Answers) (ip : Bytes) (timeout : ℤ) (w : Sockets) where
  -- Provided that Windows gives an error code for a connect that fails: a reported connection
  -- hands over exactly one new open socket, and any other result leaves no new socket open.
  pub tcp_connect-Owns :
      (a.connected_at_once ≡ false → a.connect_error ≢ 0)
      → Owns w.open_handles (tcp_connect net a ip timeout w)
  unfolding tcp_connect
  tcp_connect-Owns sure =
      if-cases (Owns w.open_handles) (not a.winsock_ready) _ _ (λ _. failed)
        λ _.
          if-cases (Owns w.open_handles) (not (is_some (net.pton (before 0 ip)))) _ _ (λ _. failed)
            λ _. with_socket a.new_socket
    where
      failed : Owns w.open_handles (record { result = error; out_socket = none; sockets = w })
      failed = inr ((λ q. cc), refl, refl)

      with_socket :
          (s : Socket)
          → Owns w.open_handles (
              if not (is_some s)
              then record { result = error; out_socket = none; sockets = w }
              else (if not a.non_blocking
                  then record {
                    result = error;
                    out_socket = none;
                    sockets = (close_socket s (open_socket s w)).1;
                  }
                  else after_connect a timeout s (open_socket s w)))
      with_socket none = failed
      with_socket (some h) =
          if-cases (Owns w.open_handles) (not a.non_blocking) _ _
            (λ _. closed-Owns a h w.open_handles error (open_socket (some h) w) (λ q. cc) refl)
            (λ _. after_connect-Owns a h w.open_handles timeout (open_socket (some h) w) sure refl)

close-Owns :
    (handles : List ℕ) (t : Attempt)
    → Owns handles t
    → (close_socket t.out_socket t.sockets).1.open_handles ≡ handles
unfolding close_socket
close-Owns handles t (inl (_, (h, e, o))) = rw (e, o) (ground (arith, ==_refl h))
close-Owns handles t (inr (_, e, o)) = rw e o

-- Provided that Windows gives an error code for a connect that fails: a probe reports what the
-- connection attempt reports, and leaves the open sockets as they were on every path.
pub tcp_probe-open_handles :
    (net : Inet) (a : Answers) (ip : Bytes) (timeout : ℤ) (w : Sockets)
    → (a.connected_at_once ≡ false → a.connect_error ≢ 0)
    → ((tcp_probe net a ip timeout w).0 ≡ (tcp_connect net a ip timeout w).result)
      × ((tcp_probe net a ip timeout w).1.open_handles ≡ w.open_handles)
unfolding tcp_probe
tcp_probe-open_handles net a ip timeout w sure = (
  refl,
  close-Owns w.open_handles (tcp_connect net a ip timeout w)
      (tcp_connect-Owns net a ip timeout w sure),
)
