-- ===== src/Uuid.antt =====
-- `formatUUID` of the repositories (internal/payments/repository.go and its copies): the sixteen
-- bytes of a UUID, here its 128-bit value, in hexadecimal groups. `parseUUID` calls the method
-- `Scan` of package pgtype, which is a parameter, `scan`, wherever a repository reads an id.
use mlakp_backend.Base.{ℕ, zero, suc, ◌+◌, ◌-◌, ◌/◌, ◌%◌, ◌^◌, [], ◌∷◌, ◌++◌, ltb, if◌then◌else◌}
use mlakp_backend.Text.{Text}
use mlakp_backend.Store.{Uuid}

pub hex_digit : ℕ → ℕ
hex_digit n = if ltb n 10 then b'0' + n else b'a' + (n - 10)

-- `hex.EncodeToString` of the low bytes of the value, the highest first, by the digits left.
pub hex_digits : ℕ → Uuid → Text
unfolding hex_digit
hex_digits zero u = []
hex_digits (suc k) u = hex_digit (u / 16 ^ k % 16) ∷ hex_digits k u

-- `encoded[0:8]-encoded[8:12]-encoded[12:16]-encoded[16:20]-encoded[20:32]`: the digits from the
-- 32nd down to the 24th lowest, and so on.
unfoldable pub format_uuid : Uuid → Text
unfolding hex_digits
format_uuid u =
    hex_digits 8 (u / 16 ^ 24)
    ++ (b'-'
        ∷ (hex_digits 4 (u / 16 ^ 20)
            ++ (b'-'
                ∷ (hex_digits 4 (u / 16 ^ 16)
                    ++ (b'-' ∷ (hex_digits 4 (u / 16 ^ 12) ++ (b'-' ∷ hex_digits 12 u)))))))
