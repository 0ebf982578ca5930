-- ===== src/App/Session/Listed.antt =====
-- The report about a device whose listing is known: the login, the commands, the parsers and the
-- output together.
use mathlib.Core.List.{Nodup}
use ip_finder.App.{success, emit}
use ip_finder.App.Arguments.{Options}
use ip_finder.App.Mock.{count_code-success}
use ip_finder.App.Session.{
  Environment, Ran, after, leave, Target, report_of, conclude_run, is_usable, after_fallback,
  on_ifconfig, key_messages, after_login,
}
use ip_finder.App.Session.Report.{Finishes}
use ip_finder.App.Stages.{log}
use ip_finder.Common.{
  ◌≡◌, ◌≢◌, ◌⊎◌, ◌↔◌, inl, inr, refl, sym, ◌∙◌, ap, Bool-cases, true, false, List, [], ◌∷◌, ◌++◌,
  All, is_empty, length, map_option, Option, none, some, ℕ, arith,
}
use ip_finder.Common.Bytes.{Bytes, codes}
use ip_finder.Common.Int.{is_zero}
use ip_finder.Inet.{Inet, IsInet}
use ip_finder.Parser.{RemoteInterface, parse_ifconfig_output, parse_ip_addr_output}
use ip_finder.Parser.IpAddr.{Link, print_links, listed_links, IsLink}
use ip_finder.Parser.IpAddr.RoundTrip.{parse-print_links}
use ip_finder.Parser.Listing.{Block, print_blocks, listed, IsBlock}
use ip_finder.Parser.RoundTrip.{parse-print_blocks}
use ip_finder.Ssh.{CommandResult, Process, SshClient}
use ip_finder.Ssh.Command.{IsExecution, execute-Runs}
use ip_finder.Ssh.Connect.{Login}
use ip_finder.Ssh.Execute.{ExecAnswers}
use ip_finder.Ssh.Streams.{up_to}

-- The command runs, prints the text in its first `n` reads, and exits with 0.
pub record Prints (a : ExecAnswers) (n : ℕ) (text : Bytes) : Type 0 where
  pub channel : a.new_channel ≢ none
  pub started : a.started ≡ true
  pub exits : is_zero a.exit_status ≡ true
  pub output : up_to a.stdout_reads n 0 ≡ text

-- The command does not run, or fails, or prints nothing.
abbrev pub IsUnusable : ExecAnswers → ℕ → Type 0
IsUnusable a n =
    (a.new_channel ≡ none)
    ⊎ ((a.started ≡ false) ⊎ ((is_zero a.exit_status ≡ false) ⊎ (up_to a.stdout_reads n 0 ≡ [])))

-- The device lists the interfaces: by ifconfig, or else by "ip -4 addr".
abbrev pub Lists : Inet → Environment → ℕ → ℕ → List RemoteInterface → Type 0
Lists net env n m interfaces =
    ((bs : List Block) × All (IsBlock net) bs
      × Nodup (listed bs)
      × Prints env.ifconfig n (print_blocks bs)
      × (interfaces ≡ listed bs))
    ⊎ (IsUnusable env.ifconfig n
        × ((ls : List Link) × All (IsLink net) ls
            × Nodup (listed_links ls)
            × Prints env.ip_addr m (print_links ls)
            × (interfaces ≡ listed_links ls)))

-- A report of the interfaces, with the code of a success exactly for two.
abbrev pub Reports : Options → Target → Bytes → List RemoteInterface → Option Ran → Type 0
Reports options t status interfaces o =
    (r : Ran) × (o ≡ some r)
    × (r.output ≡ emit options.json (report_of t status interfaces))
    × ((r.code ≡ success) ↔ (length interfaces ≡ 2))

middle-ne : (s : Bytes) (c : ℕ) (t : Bytes) → is_empty (s ++ c ∷ t) ≡ false
middle-ne [] c t = refl
middle-ne (d ∷ s) c t = refl

blocks-ne : (bs : List Block) → is_empty (listed bs) ≡ false → is_empty (print_blocks bs) ≡ false
blocks-ne [] h = cc
blocks-ne (b ∷ bs) h = middle-ne _ _ _

links-ne : (ls : List Link) → is_empty (listed_links ls) ≡ false → is_empty (print_links ls) ≡ false
links-ne [] h = cc
links-ne (l ∷ ls) h = middle-ne _ _ _

module _ (a : ExecAnswers) (n m : ℕ) (c : SshClient) (w w' : Process) (r : CommandResult)
    (x : IsExecution a n m
      ((c.session ≢ none) × (a.new_channel ≢ none) × (a.started ≡ true))
      w
      r
      w') where
  usable_with :
      (text : Bytes)
      → c.session ≢ none
      → Prints a n text
      → is_empty text ≡ false
      → (is_usable r ≡ true) × (r.stdout_data ≡ text)
  usable_with text s p ne =
      let ok = x.succeeds.1 (s, p.channel, p.started) in
      let (out, err, code) = x.output ok in
      let same = out ∙ p.output in (rw (ok, code, p.exits, same, ne), same)

  unusable : IsUnusable a n → is_usable r ≡ false
  unusable h = elim (Bool-cases r.ok) [
    | inr failed ↦ rw failed
    | inl ok ↦
        let (s, channel, started) = x.succeeds.0 ok in
        let (out, err, code) = x.output ok in by_reason channel started out code h
  ]
    where
      by_reason :
          a.new_channel ≢ none
          → a.started ≡ true
          → r.stdout_data ≡ up_to a.stdout_reads n 0
          → r.exit_code ≡ a.exit_status
          → IsUnusable a n
          → is_usable r ≡ false
      by_reason channel started out code (inl e) = absurd (channel e)
      by_reason channel started out code (inr (inl e)) = cc
      by_reason channel started out code (inr (inr (inl e))) = ground (arith, ap is_zero code ∙ e)
      by_reason channel started out code (inr (inr (inr e))) = ground (arith, ap is_empty (out ∙ e))

module _ (net : Inet) (options : Options) (t : Target) (interfaces : List RemoteInterface)
    (some_listed : is_empty interfaces ≡ false) where
  after-Reports :
      (before : List Bytes) (status : Bytes) (o : Option Ran)
      → Reports options t status interfaces o
      → Reports options t status interfaces (map_option (after before) o)
  after-Reports before status o (r, e, out, code) =
      (after before r, ap (map_option (after before)) e, out, code)

  conclude_run-Reports :
      (source status : Bytes) (parsed : List RemoteInterface) (w : Process)
      → parsed ≡ interfaces
      → Reports options t status interfaces (some (conclude_run options t source status parsed w))
  unfolding conclude_run
  conclude_run-Reports source status parsed w e =
      rw (e, some_listed) (_, refl, refl, count_code-success interfaces)

  module _ (k : IsInet net) (env : Environment) (f : Finishes env.ifconfig env.fuel)
      (g : Finishes env.ip_addr env.fuel) where
    on_ifconfig-Reports :
        (c : SshClient) (w w' : Process) (r : CommandResult)
        → c.session ≢ none
        → IsExecution env.ifconfig f.out_blocks f.err_blocks
            ((c.session ≢ none) × (env.ifconfig.new_channel ≢ none) × (env.ifconfig.started ≡ true))
            w
            r
            w'
        → Lists net env f.out_blocks g.out_blocks interfaces
        → Reports options t c.host_key_status interfaces
            (on_ifconfig net options env t c (some (r, w')))
    unfolding on_ifconfig after_fallback
    on_ifconfig-Reports c w w' r s x (inl (bs, good, distinct, prints, same)) =
        let ne = blocks-ne bs (ap is_empty (sym same) ∙ some_listed) in
        let (usable, out) =
          usable_with env.ifconfig f.out_blocks f.err_blocks c w w' r x _ s prints ne in
        rw usable (
          conclude_run-Reports (codes "ifconfig") c.host_key_status
            (parse_ifconfig_output net r.stdout_data) (leave c w')
            (ap (parse_ifconfig_output net) out
              ∙ parse-print_blocks net k bs good distinct
              ∙ sym same))
    on_ifconfig-Reports c w w' r s x (inr (fails, (ls, good, distinct, prints, same))) =
        let ne = links-ne ls (ap is_empty (sym same) ∙ some_listed) in
        let (q, v, ran, y) =
          execute-Runs env.ip_addr g.out_blocks g.err_blocks env.fuel (codes "ip -4 addr") c w'
            g.out_stops g.err_stops g.out_enough g.err_enough in
        let (usable, out) =
          usable_with env.ip_addr g.out_blocks g.err_blocks c w' v q y _ s prints ne in
        rw (unusable env.ifconfig f.out_blocks f.err_blocks c w w' r x fails) (
          after-Reports
            (log options.verbose
              (codes "ifconfig unavailable or failed, falling back to 'ip -4 addr'"))
            c.host_key_status _
            (rw (ran, usable)
              (conclude_run-Reports (codes "ip -4 addr") c.host_key_status
                (parse_ip_addr_output net q.stdout_data) (leave c v)
                (ap (parse_ip_addr_output net) out
                  ∙ parse-print_links net k ls good distinct
                  ∙ sym same))))

    -- For an address conversion with the documented properties, and fuel that is enough for the
    -- reads of both commands: after a login with a session, where ifconfig prints a well formed
    -- listing, or is unusable and "ip -4 addr" prints one, of some interface and of no pair twice,
    -- the run prints a report of exactly the listed interfaces, and succeeds exactly when there are
    -- two.
    pub after_login-Reports :
        (l : Login)
        → l.accepted ≡ true
        → l.client.session ≢ none
        → Lists net env f.out_blocks g.out_blocks interfaces
        → Reports options t l.client.host_key_status interfaces (after_login net options env t l)
    unfolding after_login
    after_login-Reports l accepted s lists =
        let (r, w', ran, x) =
          execute-Runs env.ifconfig f.out_blocks f.err_blocks env.fuel (codes "ifconfig") l.client
            l.process f.out_stops f.err_stops f.out_enough f.err_enough in
        rw (accepted, ran)
          (after-Reports (key_messages options l.client.host_key_status) l.client.host_key_status _
            (on_ifconfig-Reports l.client l.process w' r s x lists))
