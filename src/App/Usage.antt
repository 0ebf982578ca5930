-- ===== src/App/Usage.antt =====
-- main.cpp: the text of `--help`.
use ip_finder.Common.{◌++◌}
use ip_finder.Common.Bytes.{Bytes, codes}

-- What `print_usage` writes.
abbrev pub usage : Bytes
usage =
    codes "Usage: device-discovery [options]\n"
    ++ codes "\n"
    ++ codes "Discovers the Linux device directly connected to this PC, authenticates\n"
    ++ codes "over SSH and reports the IPv4 addresses of its network interfaces.\n"
    ++ codes "Neither a subnet nor a target IP has to be supplied.\n"
    ++ codes "\n"
    ++ codes "Options:\n"
    ++ codes "  --threads N              Worker threads for probing (default 32)\n"
    ++ codes "  --ssh-user USER          SSH username (default root)\n"
    ++ codes "  --ssh-password PASS      SSH password (visible in the process list;\n"
    ++ codes "                           prefer --ssh-password-env)\n"
    ++ codes "  --ssh-password-env VAR   Environment variable holding the password\n"
    ++ codes "                           (default DEVICE_SSH_PASSWORD, used when\n"
    ++ codes "                           --ssh-password is not given)\n"
    ++ codes "  --json                   Machine readable output\n"
    ++ codes "  --verbose                Diagnostic output on stderr\n"
    ++ codes "  --timeout MS             TCP connect timeout (default 750)\n"
    ++ codes "  --banner-timeout MS      SSH banner read timeout (default 1000)\n"
    ++ codes "  --auth-timeout MS        SSH authentication timeout (default 5000)\n"
    ++ codes "  --command-timeout MS     Remote command timeout (default 5000)\n"
    ++ codes "  --layer2-window MS       Layer-2 listening window (default 4000)\n"
    ++ codes "  --interface NAME         Disambiguate between candidate adapters\n"
    ++ codes "                           (Windows adapter name, e.g. \"Ethernet 2\")\n"
    ++ codes "  --select IP              Pick a candidate when several SSH devices answer\n"
    ++ codes "  --strict-host-key        Abort on unknown/mismatching SSH host keys\n"
    ++ codes "  --mock-ifconfig FILE     Offline mode: parse FILE as ifconfig output\n"
    ++ codes "  -h, --help               Show this help\n"
