-- ===== src/Output/Report.antt =====
-- Reading a JSON report back.
use ip_finder.Common.{
  ℕ, zero, suc, ◌<◌, ◌≡◌, refl, Bool, true, false, List, [], ◌∷◌, ◌++◌, ◌==◌, ==_refl,
  if◌then◌else◌, Option, none, some, arith, length,
}
use ip_finder.Common.Bytes.{Bytes, codes}
use ip_finder.Output.{
  DiscoveryReport, json_escape, quoted, json_items, interface_item, warning_item, format_json,
}
use ip_finder.Output.Escape.{plain, read_string, read_string-json_escape}
use ip_finder.Parser.{RemoteInterface}

infixl 5 ◌>>=◌
abbrev ◌>>=◌ : {A B : Type 0} → Option A → (A → Option B) → Option B
none >>= f = none
some a >>= f = f a

-- What follows the expected bytes.
abbrev pub skip : Bytes → Bytes → Option Bytes
skip [] s = some s
skip (p ∷ ps) [] = none
skip (p ∷ ps) (c ∷ cs) = if p == c then skip ps cs else none

-- The value behind a label.
unfoldable pub read_quoted : Bytes → Bytes → Option (Bytes × Bytes)
read_quoted label s = do s1 ← skip label s; read_string plain s1

-- A list of at most `limit - 1` items.
unfoldable pub read_items :
    {A : Type 0} → (Bytes → Option (A × Bytes)) → ℕ → Bool → Bytes → Option (List A × Bytes)
read_items item zero first s = none
read_items item (suc limit) first s = elim (skip (if first then codes "]" else codes "\n  ]") s) [
  | some rest ↦ some ([], rest)
  | none ↦ do
    s1 ← skip (if first then codes "\n" else codes ",\n") s
    (x, s2) ← item s1
    (xs, s3) ← read_items item limit false s2
    some (x ∷ xs, s3)
]

unfoldable pub read_interface : Bytes → Option (RemoteInterface × Bytes)
read_interface s = do
  (name, s1) ← read_quoted (codes "    {\n      \"name\": \"") s
  (ipv4, s2) ← read_quoted (codes ",\n      \"ipv4\": \"") s1
  s3 ← skip (codes "\n    }") s2
  some (record { name = name; ipv4 = ipv4 }, s3)

unfoldable pub read_report : ℕ → Bytes → Option DiscoveryReport
read_report limit s = do
  (ssh_ip, s1) ← read_quoted (codes "{\n  \"ssh_ip\": \"") s
  (ssh_banner, s2) ← read_quoted (codes ",\n  \"ssh_banner\": \"") s1
  (interface_name, s3) ← read_quoted (codes ",\n  \"local_interface\": \"") s2
  (discovery_stage, s4) ← read_quoted (codes ",\n  \"discovery_stage\": \"") s3
  (host_key_status, s5) ← read_quoted (codes ",\n  \"host_key_status\": \"") s4
  s6 ← skip (codes ",\n  \"interfaces\": [") s5
  (interfaces, s7) ← read_items read_interface limit true s6
  s8 ← skip (codes ",\n  \"warnings\": [") s7
  (warnings, s9) ← read_items (read_quoted (codes "    \"")) limit true s8
  s10 ← skip (codes "\n}\n") s9
  some (record {
    interface_name = interface_name;
    ssh_ip = ssh_ip;
    ssh_banner = ssh_banner;
    host_key_status = host_key_status;
    discovery_stage = discovery_stage;
    interfaces = interfaces;
    warnings = warnings;
  })

skip-append : (p s : Bytes) → skip p (p ++ s) ≡ some s
skip-append [] s = refl
skip-append (c ∷ p) s = rw (==_refl c) (skip-append p s)

read_quoted-quoted :
    (label value rest : Bytes) → read_quoted label (quoted label value rest) ≡ some (value, rest)
unfolding read_quoted
read_quoted-quoted label value rest =
    rw (skip-append label (json_escape value ++ (b'"' ∷ rest))) (read_string-json_escape value rest)

read_interface-interface_item :
    (i : RemoteInterface) (rest : Bytes) → read_interface (interface_item i rest) ≡ some (i, rest)
unfolding read_interface
read_interface-interface_item i rest =
    rw
      (
        read_quoted-quoted (codes "    {\n      \"name\": \"") i.name
            (quoted (codes ",\n      \"ipv4\": \"") i.ipv4 (codes "\n    }" ++ rest)),
        read_quoted-quoted (codes ",\n      \"ipv4\": \"") i.ipv4 (codes "\n    }" ++ rest),
      )
      refl

read_items-json_items :
    {A : Type 0} (read : Bytes → Option (A × Bytes)) (item : A → Bytes → Bytes)
    → ((x : A) (t : Bytes) → read (item x t) ≡ some (x, t))
    → (xs : List A) (limit : ℕ) (first : Bool) (rest : Bytes) → length xs < limit
    → read_items read limit first (json_items item first xs rest) ≡ some (xs, rest)
unfolding read_items
read_items-json_items read item h [] zero first rest l = absurd (omega arith)
read_items-json_items read item h [] (suc limit) true rest l = refl
read_items-json_items read item h [] (suc limit) false rest l = refl
read_items-json_items read item h (x ∷ xs) zero first rest l = absurd (omega arith)
read_items-json_items read item h (x ∷ xs) (suc limit) true rest l =
    rw
      (
        h x (json_items item false xs rest),
        read_items-json_items read item h xs limit false rest (omega arith),
      )
      refl
read_items-json_items read item h (x ∷ xs) (suc limit) false rest l =
    rw
      (
        h x (json_items item false xs rest),
        read_items-json_items read item h xs limit false rest (omega arith),
      )
      refl

-- The JSON report loses nothing: a reader that expects this layout, with lists shorter than its
-- limit, gets back every member of the report, whatever bytes the texts hold.
pub read_report-format_json :
    (r : DiscoveryReport) (limit : ℕ)
    → length r.interfaces < limit
    → length r.warnings < limit
    → read_report limit (format_json r) ≡ some r
unfolding read_report format_json
read_report-format_json r limit few_interfaces few_warnings =
    rw
      (
        read_quoted-quoted (codes "{\n  \"ssh_ip\": \"") r.ssh_ip _,
        read_quoted-quoted (codes ",\n  \"ssh_banner\": \"") r.ssh_banner _,
        read_quoted-quoted (codes ",\n  \"local_interface\": \"") r.interface_name _,
        read_quoted-quoted (codes ",\n  \"discovery_stage\": \"") r.discovery_stage _,
        read_quoted-quoted (codes ",\n  \"host_key_status\": \"") r.host_key_status _,
        read_items-json_items read_interface interface_item read_interface-interface_item
            r.interfaces limit true _ few_interfaces,
        read_items-json_items (read_quoted (codes "    \"")) warning_item
            (read_quoted-quoted (codes "    \"")) r.warnings limit true _ few_warnings,
      )
      refl
