-- ===== src/Base/Json.antt =====
-- JSON values and objects, as Python's dictionaries of plain values, and UUIDs with their text form.
use organization_ai.Base.{ℕ, zero, suc, ◌/◌, ◌%◌, ◌^◌, String, List, [], ◌∷◌}
use Prim.Native.String.{◌++◌ as append}
use organization_ai.Base.Text.{format}

mutual
  pub data Json : Type 0 where
    null : Json
    str : String → Json
    number : ℕ → Json
    array : Items → Json
    object : Fields → Json

  pub data Items : Type 0 where
    nil : Items
    cons : Json → Items → Items

  pub data Fields : Type 0 where
    end : Fields
    field : String → Json → Fields → Fields

-- `dict[str, object]`, in insertion order
abbrev pub Payload : Type 0
Payload = List (String × Json)

-- A UUID is its 128-bit integer.
abbrev pub Uuid : Type 0
Uuid = ℕ

-- one hexadecimal digit
unfoldable pub hex_digit : ℕ → String
hex_digit zero = "0"
hex_digit (suc zero) = "1"
hex_digit (suc (suc zero)) = "2"
hex_digit (suc (suc (suc zero))) = "3"
hex_digit (suc (suc (suc (suc zero)))) = "4"
hex_digit (suc (suc (suc (suc (suc zero))))) = "5"
hex_digit (suc (suc (suc (suc (suc (suc zero)))))) = "6"
hex_digit (suc (suc (suc (suc (suc (suc (suc zero))))))) = "7"
hex_digit (suc (suc (suc (suc (suc (suc (suc (suc zero)))))))) = "8"
hex_digit (suc (suc (suc (suc (suc (suc (suc (suc (suc zero))))))))) = "9"
hex_digit (suc (suc (suc (suc (suc (suc (suc (suc (suc (suc zero)))))))))) = "a"
hex_digit (suc (suc (suc (suc (suc (suc (suc (suc (suc (suc (suc zero))))))))))) = "b"
hex_digit (suc (suc (suc (suc (suc (suc (suc (suc (suc (suc (suc (suc zero)))))))))))) = "c"
hex_digit (suc (suc (suc (suc (suc (suc (suc (suc (suc (suc (suc (suc (suc zero))))))))))))) = "d"
hex_digit (suc (suc (suc (suc (suc (suc (suc (suc (suc (suc (suc (suc (suc (suc zero)))))))))))))) =
    "e"
hex_digit
      (suc (suc (suc (suc (suc (suc (suc (suc (suc (suc (suc (suc (suc (suc (suc _))))))))))))))) =
    "f"

-- the last `k` hexadecimal digits of `n`
unfoldable pub hex : ℕ → ℕ → String
unfolding hex_digit
hex zero n = ""
hex (suc k) n = append (hex k (n / 16)) (hex_digit (n % 16))

-- `str(uuid)`: 8-4-4-4-12 digits
unfoldable pub uuid_text : Uuid → String
unfolding hex format
uuid_text u = format (
    hex 8 (u / 2 ^ 96)
    ∷ "-"
    ∷ hex 4 (u / 2 ^ 80)
    ∷ "-"
    ∷ hex 4 (u / 2 ^ 64)
    ∷ "-"
    ∷ hex 4 (u / 2 ^ 48)
    ∷ "-"
    ∷ hex 12 u
    ∷ [])

-- `repr(uuid)`
abbrev pub uuid_repr : Uuid → String
uuid_repr t = format ("UUID('" ∷ uuid_text t ∷ "')" ∷ [])
