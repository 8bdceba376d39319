-- ===== src/Network/Tests.antt =====
-- The subnet allocator on the CIDR of subnet.rs's tests.
use nexad.Prelude.{◌+◌, ◌≡◌, ◌≢◌, refl, none, some, arith, Text, text}
use nexad.Str.Decimal.{show}
use nexad.Network.Subnet.{SubnetAllocator, new, allocate, subnet_text}
use nexad.Network.Allocation.{after, nth, nth_distinct, nth_exhausted}

abbrev base : SubnetAllocator
base = record { base_first = 172; base_second = 20; next_third_octet = 1 }

new_valid : new (text "172.20.0.0/16") ≡ some base
unfolding new
new_valid = refl

new_prefix : new (text "172.20.0.0/24") ≡ none
unfolding new
new_prefix = refl

new_address : new (text "172.020.0.0/16") ≡ none
unfolding new
new_address = refl

third_call : nth 2 base ≡ some (text "172.20.3.0/24")
unfolding after allocate subnet_text show
third_call = refl

nth_distinct_example : (x y : Text) × (nth 0 base ≡ some x) × (nth 254 base ≡ some y) × (x ≢ y)
nth_distinct_example = nth_distinct base 0 254 refl (omega arith) (omega arith)

nth_exhausted_example : (nth 255 base ≡ none) × (nth (0 + 256) base ≡ nth 0 base)
nth_exhausted_example = nth_exhausted base 0 refl
