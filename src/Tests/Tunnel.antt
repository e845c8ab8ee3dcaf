-- ===== src/Tests/Tunnel.antt =====
-- The theorem on the tunnel's admission at a concrete input.
use arkiv_community_lb.Base.{ℕ, ◌↔◌, ◌≡◌, some}
use arkiv_community_lb.Base.Results.{ok}
use arkiv_community_lb.Chain.Records.{Agreement, Stored}
use arkiv_community_lb.Admission.{new_proxy, Crypto, decision}
use arkiv_community_lb.Admission.Entitled.{Entitled, decision-Entitled}

-- A provider with the address 7 that signs by naming itself.
abbrev plain : Crypto
plain = record {
  Signature = ℕ;
  parse_key = λ _. some 11;
  parse_signature = λ _. some 7;
  recover = λ signature _. some signature;
  decimal = λ _. "9001";
  hex = λ _. "0x0b";
}

abbrev agreed : Stored Agreement
agreed = record {
  key = 11;
  creator = 1;
  created_at = 700;
  expires_at = 990;
  content = record { provider = 7; offer = 10; wei_per_call = 100; remote_port = 9001 };
}

decision-Entitled_example :
    (decision plain (new_proxy 9001 "node-rpc-9001") (λ _. some agreed) (some "0x0b") (some "0x07")
      ≡ ok agreed)
    ↔ Entitled plain
        (new_proxy 9001 "node-rpc-9001")
        (λ _. some agreed)
        (some "0x0b")
        (some "0x07")
        agreed
decision-Entitled_example =
    decision-Entitled plain (new_proxy 9001 "node-rpc-9001") (λ _. some agreed) (some "0x0b")
      (some "0x07") agreed
