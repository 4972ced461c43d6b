-- ===== src/Tree3/Pearson.antt =====
-- src/engines-experimental/tree3.cc: `PearsonHash`. A `char` is signed, so a byte from 128 on makes
-- the index negative, and the read goes to what stands before the table: `before_table` gives the
-- byte there at a distance.
use Prim.Native.Nat.{bit_xor}
use pmemkv.Base.{
  ℕ, zero, suc, ◌-◌, ◌%◌, ◌≢◌, ◌≡◌, ◌≤◌, ◌<◌, refl, Bool, true, ltb, ◌&&◌, Bool-cases, inl, inr,
  List, [], ◌∷◌, Bytes, length, get_or, leb, ◌==◌, if◌then◌else◌, arith,
}

pearson_lookup_table : List ℕ
pearson_lookup_table =
    251 ∷ 175 ∷ 119 ∷ 215 ∷ 81 ∷ 14 ∷ 79 ∷ 191 ∷ 103 ∷ 49 ∷ 181 ∷ 143 ∷ 186 ∷ 157 ∷ 0 ∷ 232 ∷ 31
    ∷ 32 ∷ 55 ∷ 60 ∷ 152 ∷ 58 ∷ 17 ∷ 237 ∷ 174 ∷ 70 ∷ 160 ∷ 144 ∷ 220 ∷ 90 ∷ 57 ∷ 223 ∷ 59 ∷ 3 ∷ 18
    ∷ 140 ∷ 111 ∷ 166 ∷ 203 ∷ 196 ∷ 134 ∷ 243 ∷ 124 ∷ 95 ∷ 222 ∷ 179 ∷ 197 ∷ 65 ∷ 180 ∷ 48 ∷ 36 ∷ 15
    ∷ 107 ∷ 46 ∷ 233 ∷ 130 ∷ 165 ∷ 30 ∷ 123 ∷ 161 ∷ 209 ∷ 23 ∷ 97 ∷ 16 ∷ 40 ∷ 91 ∷ 219 ∷ 61 ∷ 100
    ∷ 10 ∷ 210 ∷ 109 ∷ 250 ∷ 127 ∷ 22 ∷ 138 ∷ 29 ∷ 108 ∷ 244 ∷ 67 ∷ 207 ∷ 9 ∷ 178 ∷ 204 ∷ 74 ∷ 98
    ∷ 126 ∷ 249 ∷ 167 ∷ 116 ∷ 34 ∷ 77 ∷ 193 ∷ 200 ∷ 121 ∷ 5 ∷ 20 ∷ 113 ∷ 71 ∷ 35 ∷ 128 ∷ 13 ∷ 182
    ∷ 94 ∷ 25 ∷ 226 ∷ 227 ∷ 199 ∷ 75 ∷ 27 ∷ 41 ∷ 245 ∷ 230 ∷ 224 ∷ 43 ∷ 225 ∷ 177 ∷ 26 ∷ 155 ∷ 150
    ∷ 212 ∷ 142 ∷ 218 ∷ 115 ∷ 241 ∷ 73 ∷ 88 ∷ 105 ∷ 39 ∷ 114 ∷ 62 ∷ 255 ∷ 192 ∷ 201 ∷ 145 ∷ 214
    ∷ 168 ∷ 158 ∷ 221 ∷ 148 ∷ 154 ∷ 122 ∷ 12 ∷ 84 ∷ 82 ∷ 163 ∷ 44 ∷ 139 ∷ 228 ∷ 236 ∷ 205 ∷ 242
    ∷ 217 ∷ 11 ∷ 187 ∷ 146 ∷ 159 ∷ 64 ∷ 86 ∷ 239 ∷ 195 ∷ 42 ∷ 106 ∷ 198 ∷ 118 ∷ 112 ∷ 184 ∷ 172 ∷ 87
    ∷ 2 ∷ 173 ∷ 117 ∷ 176 ∷ 229 ∷ 247 ∷ 253 ∷ 137 ∷ 185 ∷ 99 ∷ 164 ∷ 102 ∷ 147 ∷ 45 ∷ 66 ∷ 231 ∷ 52
    ∷ 141 ∷ 211 ∷ 194 ∷ 206 ∷ 246 ∷ 238 ∷ 56 ∷ 110 ∷ 78 ∷ 248 ∷ 63 ∷ 240 ∷ 189 ∷ 93 ∷ 92 ∷ 51 ∷ 53
    ∷ 183 ∷ 19 ∷ 171 ∷ 72 ∷ 50 ∷ 33 ∷ 104 ∷ 101 ∷ 69 ∷ 8 ∷ 252 ∷ 83 ∷ 120 ∷ 76 ∷ 135 ∷ 85 ∷ 54 ∷ 202
    ∷ 125 ∷ 188 ∷ 213 ∷ 96 ∷ 235 ∷ 136 ∷ 208 ∷ 162 ∷ 129 ∷ 190 ∷ 132 ∷ 156 ∷ 38 ∷ 47 ∷ 1 ∷ 7 ∷ 254
    ∷ 24 ∷ 4 ∷ 216 ∷ 131 ∷ 89 ∷ 21 ∷ 28 ∷ 133 ∷ 37 ∷ 153 ∷ 149 ∷ 80 ∷ 170 ∷ 68 ∷ 6 ∷ 169 ∷ 234 ∷ 151
    ∷ []

module _ (before_table : ℕ → ℕ) where
  -- `PEARSON_LOOKUP_TABLE[hash ^ byte]`
  pearson_round : ℕ → ℕ → ℕ
  unfolding pearson_lookup_table
  pearson_round hash byte =
      let index = bit_xor hash byte in
      if leb 128 byte then before_table (256 - index) % 256 else get_or pearson_lookup_table index 0

  -- The loop from the last byte to the first.
  pearson_rounds : ℕ → Bytes → ℕ
  unfolding pearson_round
  pearson_rounds hash [] = hash
  pearson_rounds hash (byte ∷ bytes) = pearson_round (pearson_rounds hash bytes) byte

  -- 0 is left for a slot that is not in use.
  unfoldable pub pearson_hash : Bytes → ℕ
  unfolding pearson_rounds
  pearson_hash key =
      let hash = pearson_rounds (length key % 256) key in if hash == 0 then 1 else hash

  pub pearson_hash-ne-zero : (key : Bytes) → pearson_hash key ≢ 0
  unfolding pearson_hash
  pearson_hash-ne-zero key h = ground arith

abbrev all_below : ℕ → List ℕ → Bool
all_below bound [] = true
all_below bound (x ∷ xs) = ltb x bound && all_below bound xs

get_or_below :
    (bound : ℕ) (xs : List ℕ) (i : ℕ)
    → 0 < bound
    → all_below bound xs ≡ true
    → get_or xs i 0 < bound
get_or_below bound [] i p h = p
get_or_below bound (x ∷ xs) zero p h = ground arith
get_or_below bound (x ∷ xs) (suc i) p h = get_or_below bound xs i p (ground arith)

table_below : (i : ℕ) → get_or pearson_lookup_table i 0 < 256
unfolding pearson_lookup_table
table_below i = get_or_below 256 pearson_lookup_table i (omega arith) refl

module _ (before_table : ℕ → ℕ) where
  pearson_rounds_below :
      (hash : ℕ) (key : Bytes) → hash < 256 → pearson_rounds before_table hash key < 256
  unfolding pearson_rounds pearson_round
  pearson_rounds_below hash [] h = h
  pearson_rounds_below hash (byte ∷ bytes) h = elim (Bool-cases (leb 128 byte)) [
    | inl b ↦ rw b (omega arith)
    | inr b ↦ rw b (table_below (bit_xor (pearson_rounds before_table hash bytes) byte))
  ]

  -- The hash of a key fits in a byte, whatever stands before the table, and it is never 0, the mark
  -- of a slot that is not in use.
  pearson_hash-bounds :
      (key : Bytes) → (1 ≤ pearson_hash before_table key) × (pearson_hash before_table key < 256)
  unfolding pearson_hash
  pearson_hash-bounds key =
      let h = pearson_rounds_below (length key % 256) key (omega arith) in ground (arith, h)
