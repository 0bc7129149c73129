-- ===== src/Version.antt =====
-- src/proto/version.c and version.h: the version object of the hello event and of version.get.
use pjsocky.Json.{Members, add_string}
use pjsocky.Pjlib.{Pjlib}
use pjsocky.Prelude.{String}

-- PJSOCKY_PROTOCOL_VERSION
abbrev pub protocol_version : String
protocol_version = "1.1.0"

-- pjsocky_version_fill
unfoldable pub fill : Pjlib → Members → Members
fill p obj =
    add_string
      (add_string (add_string obj "protocol_version" protocol_version) "daemon_version"
        p.daemon_version)
      "pjsip_version" p.get_version
