-- ===== src/Qr/Field/Table.antt =====
-- The two tables of QRMath: the loops that fill them, and what they are filled with.
use study_tech.Base.{
  ℕ, zero, suc, ◌+◌, ◌-◌, bit_xor, List, [], ◌∷◌, ◌++◌, Option, none, some, length, get_or, set,
  ◌≡◌, refl, ◌<<◌,
}

-- for (i = 0; i < 8; i++) EXP_TABLE[i] = 1 << i
abbrev exp_start : ℕ → List ℕ → List ℕ
exp_start zero table = table
exp_start (suc left) table = exp_start left (table ++ (1 << length table) ∷ [])

-- for (i = 8; i < 256; i++) EXP_TABLE[i] = EXP_TABLE[i - 4] ^ …, where `i` is the length so far.
abbrev exp_rest : ℕ → List ℕ → List ℕ
exp_rest zero table = table
exp_rest (suc left) table =
    let i = length table in
    let value =
      bit_xor
        (bit_xor (bit_xor (get_or table (i - 4) 0) (get_or table (i - 5) 0))
          (get_or table (i - 6) 0))
        (get_or table (i - 8) 0) in
    exp_rest left (table ++ value ∷ [])

-- An array of 256 elements, which are all `undefined`.
abbrev undefineds : ℕ → List (Option ℕ)
undefineds zero = []
undefineds (suc n) = none ∷ undefineds n

-- for (i = 0; i < 255; i++) LOG_TABLE[EXP_TABLE[i]] = i
abbrev log_loop : List ℕ → ℕ → ℕ → List (Option ℕ) → List (Option ℕ)
log_loop [] i left table = table
log_loop (e ∷ es) i zero table = table
log_loop (e ∷ es) i (suc left) table = log_loop es (i + 1) left (set table e (some i))

-- EXP_TABLE
abbrev pub exp_table : List ℕ
exp_table =
    1 ∷ 2 ∷ 4 ∷ 8 ∷ 16 ∷ 32 ∷ 64 ∷ 128 ∷ 29 ∷ 58 ∷ 116 ∷ 232 ∷ 205 ∷ 135 ∷ 19 ∷ 38 ∷ 76 ∷ 152 ∷ 45
    ∷ 90 ∷ 180 ∷ 117 ∷ 234 ∷ 201 ∷ 143 ∷ 3 ∷ 6 ∷ 12 ∷ 24 ∷ 48 ∷ 96 ∷ 192 ∷ 157 ∷ 39 ∷ 78 ∷ 156 ∷ 37
    ∷ 74 ∷ 148 ∷ 53 ∷ 106 ∷ 212 ∷ 181 ∷ 119 ∷ 238 ∷ 193 ∷ 159 ∷ 35 ∷ 70 ∷ 140 ∷ 5 ∷ 10 ∷ 20 ∷ 40
    ∷ 80 ∷ 160 ∷ 93 ∷ 186 ∷ 105 ∷ 210 ∷ 185 ∷ 111 ∷ 222 ∷ 161 ∷ 95 ∷ 190 ∷ 97 ∷ 194 ∷ 153 ∷ 47 ∷ 94
    ∷ 188 ∷ 101 ∷ 202 ∷ 137 ∷ 15 ∷ 30 ∷ 60 ∷ 120 ∷ 240 ∷ 253 ∷ 231 ∷ 211 ∷ 187 ∷ 107 ∷ 214 ∷ 177
    ∷ 127 ∷ 254 ∷ 225 ∷ 223 ∷ 163 ∷ 91 ∷ 182 ∷ 113 ∷ 226 ∷ 217 ∷ 175 ∷ 67 ∷ 134 ∷ 17 ∷ 34 ∷ 68 ∷ 136
    ∷ 13 ∷ 26 ∷ 52 ∷ 104 ∷ 208 ∷ 189 ∷ 103 ∷ 206 ∷ 129 ∷ 31 ∷ 62 ∷ 124 ∷ 248 ∷ 237 ∷ 199 ∷ 147 ∷ 59
    ∷ 118 ∷ 236 ∷ 197 ∷ 151 ∷ 51 ∷ 102 ∷ 204 ∷ 133 ∷ 23 ∷ 46 ∷ 92 ∷ 184 ∷ 109 ∷ 218 ∷ 169 ∷ 79 ∷ 158
    ∷ 33 ∷ 66 ∷ 132 ∷ 21 ∷ 42 ∷ 84 ∷ 168 ∷ 77 ∷ 154 ∷ 41 ∷ 82 ∷ 164 ∷ 85 ∷ 170 ∷ 73 ∷ 146 ∷ 57 ∷ 114
    ∷ 228 ∷ 213 ∷ 183 ∷ 115 ∷ 230 ∷ 209 ∷ 191 ∷ 99 ∷ 198 ∷ 145 ∷ 63 ∷ 126 ∷ 252 ∷ 229 ∷ 215 ∷ 179
    ∷ 123 ∷ 246 ∷ 241 ∷ 255 ∷ 227 ∷ 219 ∷ 171 ∷ 75 ∷ 150 ∷ 49 ∷ 98 ∷ 196 ∷ 149 ∷ 55 ∷ 110 ∷ 220
    ∷ 165 ∷ 87 ∷ 174 ∷ 65 ∷ 130 ∷ 25 ∷ 50 ∷ 100 ∷ 200 ∷ 141 ∷ 7 ∷ 14 ∷ 28 ∷ 56 ∷ 112 ∷ 224 ∷ 221
    ∷ 167 ∷ 83 ∷ 166 ∷ 81 ∷ 162 ∷ 89 ∷ 178 ∷ 121 ∷ 242 ∷ 249 ∷ 239 ∷ 195 ∷ 155 ∷ 43 ∷ 86 ∷ 172 ∷ 69
    ∷ 138 ∷ 9 ∷ 18 ∷ 36 ∷ 72 ∷ 144 ∷ 61 ∷ 122 ∷ 244 ∷ 245 ∷ 247 ∷ 243 ∷ 251 ∷ 235 ∷ 203 ∷ 139 ∷ 11
    ∷ 22 ∷ 44 ∷ 88 ∷ 176 ∷ 125 ∷ 250 ∷ 233 ∷ 207 ∷ 131 ∷ 27 ∷ 54 ∷ 108 ∷ 216 ∷ 173 ∷ 71 ∷ 142 ∷ 1
    ∷ []

-- LOG_TABLE, which has no logarithm of 0.
abbrev pub log_table : List (Option ℕ)
log_table =
    none
    ∷ some 0
    ∷ some 1
    ∷ some 25
    ∷ some 2
    ∷ some 50
    ∷ some 26
    ∷ some 198
    ∷ some 3
    ∷ some 223
    ∷ some 51
    ∷ some 238
    ∷ some 27
    ∷ some 104
    ∷ some 199
    ∷ some 75
    ∷ some 4
    ∷ some 100
    ∷ some 224
    ∷ some 14
    ∷ some 52
    ∷ some 141
    ∷ some 239
    ∷ some 129
    ∷ some 28
    ∷ some 193
    ∷ some 105
    ∷ some 248
    ∷ some 200
    ∷ some 8
    ∷ some 76
    ∷ some 113
    ∷ some 5
    ∷ some 138
    ∷ some 101
    ∷ some 47
    ∷ some 225
    ∷ some 36
    ∷ some 15
    ∷ some 33
    ∷ some 53
    ∷ some 147
    ∷ some 142
    ∷ some 218
    ∷ some 240
    ∷ some 18
    ∷ some 130
    ∷ some 69
    ∷ some 29
    ∷ some 181
    ∷ some 194
    ∷ some 125
    ∷ some 106
    ∷ some 39
    ∷ some 249
    ∷ some 185
    ∷ some 201
    ∷ some 154
    ∷ some 9
    ∷ some 120
    ∷ some 77
    ∷ some 228
    ∷ some 114
    ∷ some 166
    ∷ some 6
    ∷ some 191
    ∷ some 139
    ∷ some 98
    ∷ some 102
    ∷ some 221
    ∷ some 48
    ∷ some 253
    ∷ some 226
    ∷ some 152
    ∷ some 37
    ∷ some 179
    ∷ some 16
    ∷ some 145
    ∷ some 34
    ∷ some 136
    ∷ some 54
    ∷ some 208
    ∷ some 148
    ∷ some 206
    ∷ some 143
    ∷ some 150
    ∷ some 219
    ∷ some 189
    ∷ some 241
    ∷ some 210
    ∷ some 19
    ∷ some 92
    ∷ some 131
    ∷ some 56
    ∷ some 70
    ∷ some 64
    ∷ some 30
    ∷ some 66
    ∷ some 182
    ∷ some 163
    ∷ some 195
    ∷ some 72
    ∷ some 126
    ∷ some 110
    ∷ some 107
    ∷ some 58
    ∷ some 40
    ∷ some 84
    ∷ some 250
    ∷ some 133
    ∷ some 186
    ∷ some 61
    ∷ some 202
    ∷ some 94
    ∷ some 155
    ∷ some 159
    ∷ some 10
    ∷ some 21
    ∷ some 121
    ∷ some 43
    ∷ some 78
    ∷ some 212
    ∷ some 229
    ∷ some 172
    ∷ some 115
    ∷ some 243
    ∷ some 167
    ∷ some 87
    ∷ some 7
    ∷ some 112
    ∷ some 192
    ∷ some 247
    ∷ some 140
    ∷ some 128
    ∷ some 99
    ∷ some 13
    ∷ some 103
    ∷ some 74
    ∷ some 222
    ∷ some 237
    ∷ some 49
    ∷ some 197
    ∷ some 254
    ∷ some 24
    ∷ some 227
    ∷ some 165
    ∷ some 153
    ∷ some 119
    ∷ some 38
    ∷ some 184
    ∷ some 180
    ∷ some 124
    ∷ some 17
    ∷ some 68
    ∷ some 146
    ∷ some 217
    ∷ some 35
    ∷ some 32
    ∷ some 137
    ∷ some 46
    ∷ some 55
    ∷ some 63
    ∷ some 209
    ∷ some 91
    ∷ some 149
    ∷ some 188
    ∷ some 207
    ∷ some 205
    ∷ some 144
    ∷ some 135
    ∷ some 151
    ∷ some 178
    ∷ some 220
    ∷ some 252
    ∷ some 190
    ∷ some 97
    ∷ some 242
    ∷ some 86
    ∷ some 211
    ∷ some 171
    ∷ some 20
    ∷ some 42
    ∷ some 93
    ∷ some 158
    ∷ some 132
    ∷ some 60
    ∷ some 57
    ∷ some 83
    ∷ some 71
    ∷ some 109
    ∷ some 65
    ∷ some 162
    ∷ some 31
    ∷ some 45
    ∷ some 67
    ∷ some 216
    ∷ some 183
    ∷ some 123
    ∷ some 164
    ∷ some 118
    ∷ some 196
    ∷ some 23
    ∷ some 73
    ∷ some 236
    ∷ some 127
    ∷ some 12
    ∷ some 111
    ∷ some 246
    ∷ some 108
    ∷ some 161
    ∷ some 59
    ∷ some 82
    ∷ some 41
    ∷ some 157
    ∷ some 85
    ∷ some 170
    ∷ some 251
    ∷ some 96
    ∷ some 134
    ∷ some 177
    ∷ some 187
    ∷ some 204
    ∷ some 62
    ∷ some 90
    ∷ some 203
    ∷ some 89
    ∷ some 95
    ∷ some 176
    ∷ some 156
    ∷ some 169
    ∷ some 160
    ∷ some 81
    ∷ some 11
    ∷ some 245
    ∷ some 22
    ∷ some 235
    ∷ some 122
    ∷ some 117
    ∷ some 44
    ∷ some 215
    ∷ some 79
    ∷ some 174
    ∷ some 213
    ∷ some 233
    ∷ some 230
    ∷ some 231
    ∷ some 173
    ∷ some 232
    ∷ some 116
    ∷ some 214
    ∷ some 244
    ∷ some 234
    ∷ some 168
    ∷ some 80
    ∷ some 88
    ∷ some 175
    ∷ []

exp_table-eq : exp_rest 248 (exp_start 8 []) ≡ exp_table
exp_table-eq = refl

log_table-eq : log_loop exp_table 0 255 (undefineds 256) ≡ log_table
log_table-eq = refl
