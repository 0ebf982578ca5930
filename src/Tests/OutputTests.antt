-- ===== src/Tests/OutputTests.antt =====
-- One report, in both formats.
use ip_finder.Common.{◌≡◌, refl, [], ◌∷◌, ◌++◌, some, arith}
use ip_finder.Common.Bytes.{codes}
use ip_finder.Output.{DiscoveryReport, json_escape, format_text, format_json}
use ip_finder.Output.Escape.{plain, read_string, read_string-json_escape}
use ip_finder.Output.Report.{read_report, read_report-format_json}

abbrev report : DiscoveryReport
report = record {
  interface_name = codes "Ethernet";
  ssh_ip = codes "10.0.0.2";
  ssh_banner = codes "SSH-2.0-x";
  host_key_status = codes "known";
  discovery_stage = codes "layer2";
  interfaces =
      record { name = codes "eth0"; ipv4 = codes "10.0.0.2" }
      ∷ record { name = codes "enp1s0"; ipv4 = codes "192.168.10.50" }
      ∷ [];
  warnings = codes "say \"hi\"\n" ∷ [];
}

as_text :
    format_text report
    ≡ codes
        "Directly connected device discovered\n\nSSH endpoint:\n  IP:       10.0.0.2\n  Banner:   SSH-2.0-x\n  Via:      Ethernet (layer2)\n  Host key: known\n\nNetwork interfaces:\n  eth0    10.0.0.2\n  enp1s0  192.168.10.50\n\nWARNING: say \"hi\"\n\n"
unfolding format_text
as_text = refl

escapes : json_escape (codes "a\"\\\n" ++ (1 ∷ [])) ≡ codes "a\\\"\\\\\\n\\u0001"
unfolding json_escape
escapes = refl

as_json :
    format_json (record report { interfaces = [] })
    ≡ codes
        "{\n  \"ssh_ip\": \"10.0.0.2\",\n  \"ssh_banner\": \"SSH-2.0-x\",\n  \"local_interface\": \"Ethernet\",\n  \"discovery_stage\": \"layer2\",\n  \"host_key_status\": \"known\",\n  \"interfaces\": [],\n  \"warnings\": [\n    \"say \\\"hi\\\"\\n\"\n  ]\n}\n"
unfolding format_json
as_json = refl

read_string-json_escape_example :
    read_string plain (json_escape (codes "say \"hi\"\n") ++ (b'"' ∷ codes ","))
    ≡ some (codes "say \"hi\"\n", codes ",")
read_string-json_escape_example = read_string-json_escape (codes "say \"hi\"\n") (codes ",")

read_report-format_json_example : read_report 3 (format_json report) ≡ some report
read_report-format_json_example = read_report-format_json report 3 (omega arith) (omega arith)
