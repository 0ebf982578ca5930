-- ===== src/App/Mock.antt =====
-- The offline mode, from the text of a file to the report on the standard output.
use mathlib.Core.List.{Nodup}
use ip_finder.Common.{
  ℕ, ◌<◌, ◌≡◌, ◌↔◌, refl, true, false, List, ◌==◌, ==_iff, is_empty, length, All, some, Bool-cases,
  inl, inr, arith,
}
use ip_finder.App.{success, count_code, count_warnings, parse_either, mock_report, run_mock_mode}
use ip_finder.Inet.{Inet, IsInet}
use ip_finder.Output.Report.{read_report, read_report-format_json}
use ip_finder.Parser.{RemoteInterface}
use ip_finder.Parser.Listing.{Block, print_blocks, listed, IsBlock}
use ip_finder.Parser.RoundTrip.{parse-print_blocks}

pub count_code-success :
    (interfaces : List RemoteInterface)
    → (count_code interfaces ≡ success) ↔ (length interfaces ≡ 2)
count_code-success interfaces = elim (Bool-cases (length interfaces == 2)) [
  | inl two ↦ rw two (λ e. (==_iff (length interfaces) 2).0 two, λ e. refl)
  | inr other ↦ rw other (λ e. cc, λ e. absurd (ground arith))
]

few_warnings : (interfaces : List RemoteInterface) → length (count_warnings interfaces) < 2
few_warnings interfaces = ground arith

-- For an address conversion with the documented properties, and well formed blocks that list some
-- interface and no pair twice: the offline mode on the printed listing, with --json, prints a
-- report that reads back with exactly the listed interfaces, and succeeds exactly when there are
-- two.
pub run_mock_mode-print_blocks :
    (net : Inet) (bs : List Block) (limit : ℕ)
    → IsInet net
    → All (IsBlock net) bs
    → Nodup (listed bs)
    → is_empty (listed bs) ≡ false
    → length (listed bs) < limit
    → 1 < limit
    → (((run_mock_mode net true (some (print_blocks bs))).0 ≡ success) ↔ (length (listed bs) ≡ 2))
      × (read_report limit (run_mock_mode net true (some (print_blocks bs))).1
          ≡ some (mock_report (listed bs)))
unfolding run_mock_mode parse_either
run_mock_mode-print_blocks net bs limit k h d some_listed few room =
    rw (parse-print_blocks net k bs h d, some_listed)
      (rw some_listed (
        count_code-success (listed bs),
        read_report-format_json (mock_report (listed bs)) limit few
            (omega (arith, few_warnings (listed bs))),
      ))
