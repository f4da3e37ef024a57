-- ===== src/Plugin/Tests.antt =====
-- The theorems about crates/go-plugin at concrete inputs.
use pixi_ai.Common.{ℕ, ◌≡◌, false, some, [], ◌∷◌, arith, codes}
use pixi_ai.Plugin.Protocol.{ServerNegotiationLine, grpc, ok, parse, encode, cert_field}
use pixi_ai.Plugin.Protocol.RoundTrip.{parse-encode}
use pixi_ai.Plugin.Server.{ServeConfig}

abbrev line : ServerNegotiationLine
line = record {
  core_version = 1;
  app_version = 3;
  network = codes "unix";
  address = codes "/tmp/p.sock";
  protocol = grpc;
  server_cert = some (codes "MIIB");
  mux_supported = false;
}

parse-encode_example :
    parse (encode line) ≡ ok (record line { server_cert = cert_field line.server_cert })
parse-encode_example =
    parse-encode line (ground arith) (ground arith) (ground arith) (ground arith) (ground arith)
      (ground arith)

line-parsed : parse (encode line) ≡ ok line
line-parsed =
    parse-encode line (ground arith) (ground arith) (ground arith) (ground arith) (ground arith)
      (ground arith)

abbrev server : ServeConfig ℕ
server = record {
  protocol_version = 1;
  plugins = 10;
  versioned_plugins = (2, 20) ∷ (4, 40) ∷ (3, 30) ∷ [];
}
