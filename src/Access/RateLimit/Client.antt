-- ===== src/Access/RateLimit/Client.antt =====
-- What a client can change about the key it is limited under.
use apod.Base.{◌≡◌, false, String, ◌==◌, nat_eq, string_eq, if◌then◌else◌, arith}
use apod.Access.{Request}
use apod.Access.RateLimit.{Network, client_ip}

-- The address of the peer: the host of the remote address, or all of it where it does not split.
abbrev pub peer_address : Network → Request → String
peer_address net r = if net.host r.remote_addr == "" then r.remote_addr else net.host r.remote_addr

-- A client on the network whose address is no trusted proxy is limited under that address, whatever
-- headers it sends: neither X-Forwarded-For nor X-Apod-Proxied gives it another key.
pub client_ip-untrusted :
    (net : Network) (r : Request) (forwarded_for apod_proxied : String)
    → r.is_unix ≡ false
    → net.is_trusted_proxy (peer_address net r) ≡ false
    → client_ip net (record r { forwarded_for = forwarded_for; apod_proxied = apod_proxied })
      ≡ peer_address net r
unfolding client_ip
client_ip-untrusted net r forwarded_for apod_proxied u t = ground arith
