-- ===== src/Boundary/Ranges.antt =====
-- The IPv4 addresses that `isPrivateAddress` of boundary.ts refuses, as blocks of numbers.
use dymaxion.Prelude.{ℕ, ◌+◌, ◌*◌, ◌<◌, ◌≤◌, ◌≡◌, Bool, ◌&&◌, ◌||◌, leb, ltb, ◌==◌, arith}
use dymaxion.Boundary.Url.{is_private_v4}

-- An address as a number of 32 bits
abbrev pub address : ℕ → ℕ → ℕ → ℕ → ℕ
address a b c d = a * 16777216 + b * 65536 + c * 256 + d

-- From the first address on, so many
unfoldable pub in_block : ℕ → ℕ → ℕ → Bool
in_block first size n = leb first n && ltb n (first + size)

module _ (a b c d : ℕ) (b_small : b < 256) (c_small : c < 256) (d_small : d < 256) where
  in_block-8 : (k : ℕ) → in_block (k * 16777216) 16777216 (address a b c d) ≡ (a == k)
  unfolding in_block
  in_block-8 k = ground arith

  in_block-16 :
      (k l : ℕ)
      → l < 256
      → in_block (k * 16777216 + l * 65536) 65536 (address a b c d) ≡ ((a == k) && (b == l))
  unfolding in_block
  in_block-16 k l h = ground arith

  in_block-24 :
      (k l m : ℕ)
      → l < 256
      → m < 256
      → in_block (k * 16777216 + l * 65536 + m * 256) 256 (address a b c d)
        ≡ ((a == k) && (b == l) && (c == m))
  unfolding in_block
  in_block-24 k l m h i = ground arith

  in_block-run :
      (k l s : ℕ)
      → l + s ≤ 255
      → in_block (k * 16777216 + l * 65536) (s * 65536 + 65536) (address a b c d)
        ≡ ((a == k) && leb l b && leb b (l + s))
  unfolding in_block
  in_block-run k l s h = ground arith

-- The blocks of the special-purpose address registry that are refused: this network and loopback,
-- private, shared and link-local addresses, protocol assignments, documentation and benchmarking,
-- and everything from multicast on.
unfoldable pub is_reserved : ℕ → Bool
is_reserved n =
    in_block (0 * 16777216) 16777216 n  -- 0.0.0.0/8
    || in_block (10 * 16777216) 16777216 n  -- 10.0.0.0/8
    || in_block (127 * 16777216) 16777216 n  -- 127.0.0.0/8
    || in_block (100 * 16777216 + 64 * 65536) (63 * 65536 + 65536) n  -- 100.64.0.0/10
    || in_block (169 * 16777216 + 254 * 65536) 65536 n  -- 169.254.0.0/16
    || in_block (172 * 16777216 + 16 * 65536) (15 * 65536 + 65536) n  -- 172.16.0.0/12
    || in_block (192 * 16777216 + 0 * 65536 + 0 * 256) 256 n  -- 192.0.0.0/24
    || in_block (192 * 16777216 + 0 * 65536 + 2 * 256) 256 n  -- 192.0.2.0/24
    || in_block (192 * 16777216 + 168 * 65536) 65536 n  -- 192.168.0.0/16
    || in_block (198 * 16777216 + 18 * 65536) (1 * 65536 + 65536) n  -- 198.18.0.0/15
    || in_block (198 * 16777216 + 51 * 65536 + 100 * 256) 256 n  -- 198.51.100.0/24
    || in_block (203 * 16777216 + 0 * 65536 + 113 * 256) 256 n  -- 203.0.113.0/24
    || leb (224 * 16777216) n  -- 224.0.0.0 and above

-- `isPrivateAddress` refuses an IPv4 address exactly if its number is in one of the reserved blocks,
-- each a CIDR block.
pub is_private_v4-reserved :
    (a b c d : ℕ)
    → b < 256
    → c < 256
    → d < 256
    → is_private_v4 a b c ≡ is_reserved (address a b c d)
unfolding is_private_v4 is_reserved
is_private_v4-reserved a b c d hb hc hd =
    let eight = in_block-8 a b c d hb hc hd in
    let sixteen = in_block-16 a b c d hb hc hd in
    let twenty_four = in_block-24 a b c d hb hc hd in
    let run = in_block-run a b c d hb hc hd in
    let above : leb (224 * 16777216) (address a b c d) ≡ leb 224 a = ground arith in
    ground (
      arith,
      eight 0,
      eight 10,
      eight 127,
      run 100 64 63 (omega arith),
      sixteen 169 254 (omega arith),
      run 172 16 15 (omega arith),
      twenty_four 192 0 0 (omega arith) (omega arith),
      twenty_four 192 0 2 (omega arith) (omega arith),
      sixteen 192 168 (omega arith),
      run 198 18 1 (omega arith),
      twenty_four 198 51 100 (omega arith) (omega arith),
      twenty_four 203 0 113 (omega arith) (omega arith),
      above,
    )
