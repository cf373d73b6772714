-- ===== src/Monitor/Serial.antt =====
-- internal/monitor/manager.go, serialGreater: serial numbers compared as RFC 1982 does.
use dnssec_auditor.Common.{ℕ, ◌+◌, ◌-◌, ◌%◌, ◌<◌, Bool, true, false, ◌&&◌, ◌≡◌, ◌↔◌, arith, ltb}

abbrev pub u32 : ℕ
u32 = 4294967296

abbrev half : ℕ
half = 2147483648

-- int32(a-b) > 0
unfoldable pub serial_greater : ℕ → ℕ → Bool
serial_greater a b = let d = (a + u32 - b) % u32 in ltb 0 d && ltb d half

-- Of two 32-bit serials less than half the space apart, the greater one is the greater number.
pub serial_greater_near :
    (a b : ℕ)
    → a < u32
    → b < u32
    → a < b + half
    → b < a + half
    → (serial_greater a b ≡ true) ↔ (b < a)
unfolding serial_greater
serial_greater_near a b ha hb p q = (λ g. ground arith, λ lt. ground arith)

-- A 32-bit serial that has wrapped is greater: one that is smaller as a number by more than half the
-- space is the greater serial.
pub serial_greater_wrapped : (a b : ℕ) → b < u32 → a + half < b → serial_greater a b ≡ true
unfolding serial_greater
serial_greater_wrapped a b hb far = ground arith

-- No serial is greater than itself, and no two are each greater than the other.
pub serial_greater_asym :
    (a b : ℕ) → a < u32 → b < u32 → serial_greater a b ≡ true → serial_greater b a ≡ false
unfolding serial_greater
serial_greater_asym a b ha hb h = ground arith
