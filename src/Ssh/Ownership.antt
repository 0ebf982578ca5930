-- ===== src/Ssh/Ownership.antt =====
-- What an SSH client holds, and what it gives back.
use ip_finder.Common.{ℕ, ◌≡◌, refl, sym, ◌∙◌, ap, List, ◌∷◌, ==_refl, Option, none, some, arith}
use ip_finder.Platform.{Socket, Sockets, close_socket, erase_handle}
use ip_finder.Ssh.{Process, SshClient, end_session, disconnect}

-- The pointer in front of those that were there before.
abbrev pub held : Option ℕ → List ℕ → List ℕ
held none before = before
held (some h) before = h ∷ before

-- Beside what the process held at the start there are the socket and the session of the client.
abbrev pub Owns : Process → SshClient → Process → Type 0
Owns start c w =
    (w.sockets.open_handles ≡ held c.socket_handle start.sockets.open_handles)
    × (w.sessions ≡ held c.session start.sessions)
    × (w.channels ≡ start.channels)
    × (w.known_hosts ≡ start.known_hosts)

-- The client holds nothing.
pub record IsDisconnected (c : SshClient) : Type 0 where
  pub no_socket : c.socket_handle ≡ none
  pub no_session : c.session ≡ none

pub erase-head : (h : ℕ) (hs : List ℕ) → erase_handle h (h ∷ hs) ≡ hs
erase-head h hs = ground (arith, ==_refl h)

close_socket-none : (o : Socket) (w : Sockets) → (close_socket o w).0 ≡ none
unfolding close_socket
close_socket-none none w = refl
close_socket-none (some h) w = refl

close_socket-held :
    (o : Socket) (w : Sockets) (hs : List ℕ)
    → w.open_handles ≡ held o hs
    → (close_socket o w).1.open_handles ≡ hs
unfolding close_socket
close_socket-held none w hs e = e
close_socket-held (some h) w hs e = ap (erase_handle h) e ∙ erase-head h hs

module _ (start : Process) where
  end_session-Owns :
      (o : Option ℕ) (c : SshClient) (w : Process)
      → c.session ≡ o
      → Owns start c w
      → let r = end_session o c w in Owns start r.0 r.1 × (r.0.session ≡ none)
  unfolding end_session
  end_session-Owns none c w e owns = (owns, e)
  end_session-Owns (some s) c w e (handles, live, no_channel, no_table) = (
    (
      handles,
      ap (erase_handle s) (live ∙ ap (λ o. held o start.sessions) e) ∙ erase-head s start.sessions,
      no_channel,
      no_table,
    ),
    refl,
  )

  pub disconnect-Owns :
      (c : SshClient) (w : Process)
      → Owns start c w
      → let r = disconnect c w in Owns start r.0 r.1 × IsDisconnected r.0
  unfolding disconnect
  disconnect-Owns c w owns =
      let ((handles, live, no_channel, no_table), none_left) =
        end_session-Owns c.session c w refl owns in
      let r = end_session c.session c w in
      let closed = close_socket-none r.0.socket_handle r.1.sockets in
      (
        (
          close_socket-held r.0.socket_handle r.1.sockets start.sockets.open_handles handles
              ∙ ap (λ o. held o start.sockets.open_handles) (sym closed),
          live,
          no_channel,
          no_table,
        ),
        record { no_socket = closed; no_session = none_left },
      )

-- The second part of `disconnect`.
abbrev pub close_in : SshClient × Process → SshClient × Process
close_in r =
    let closed = close_socket r.0.socket_handle r.1.sockets in
    (record r.0 { socket_handle = closed.0 }, record r.1 { sockets = closed.1 })

-- A client that holds nothing is left as it is.
disconnect-none : (c : SshClient) (w : Process) → IsDisconnected c → disconnect c w ≡ (c, w)
unfolding disconnect end_session close_socket
disconnect-none c w gone =
    ap (λ o. close_in (end_session o c w)) gone.no_session
    ∙ ap
        (λ o. (
          record c { socket_handle = (close_socket o w.sockets).0 },
          record w { sockets = (close_socket o w.sockets).1 },
        ))
        gone.no_socket
    ∙ ap (λ o. (record c { socket_handle = o }, w)) (sym gone.no_socket)

-- For a client that holds no more than its socket and its session: after `disconnect` it holds
-- nothing, the process holds what it held before the client did, and calling it again changes
-- nothing.
pub disconnect_lem :
    (start : Process) (c : SshClient) (w : Process)
    → Owns start c w
    → let r = disconnect c w in Owns start r.0 r.1 × IsDisconnected r.0 × (disconnect r.0 r.1 ≡ r)
disconnect_lem start c w owns =
    let (kept, gone) = disconnect-Owns start c w owns in
    (kept, gone, disconnect-none (disconnect c w).0 (disconnect c w).1 gone)
