-- ===== src/Protocol/Tests.antt =====
-- Addresses in their several spellings.
use metaserver_worker.Common.{◌≡◌, refl, none, some, keep, codes}
use metaserver_worker.Protocol.{normalize_ip_address}
use metaserver_worker.Protocol.Idempotent.{normalize_ip_address_stable}

short_address :
    normalize_ip_address (codes " [2001:DB8::192.0.2.1] ")
    ≡ some (codes "2001:0db8:0000:0000:0000:0000:c000:0201")
unfolding normalize_ip_address keep
short_address = refl

two_gaps : normalize_ip_address (codes "1::2::3") ≡ none
unfolding normalize_ip_address
two_gaps = refl

padded_octet : normalize_ip_address (codes "010.1.2.255") ≡ some (codes "10.1.2.255")
unfolding normalize_ip_address
padded_octet = refl

normalize_ip_address_stable_example :
    normalize_ip_address (codes "2001:0db8:0000:0000:0000:0000:c000:0201")
    ≡ some (codes "2001:0db8:0000:0000:0000:0000:c000:0201")
normalize_ip_address_stable_example =
    normalize_ip_address_stable (codes " [2001:DB8::192.0.2.1] ")
      (codes "2001:0db8:0000:0000:0000:0000:c000:0201") short_address
