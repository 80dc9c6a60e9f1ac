-- ===== src/Transport/Runs.antt =====
-- A run of the secure stream with a toy cipher, and the round trip on it.
use ipcap.Base.{ℕ, ◌+◌, ◌≡◌, refl, ap, List, [], ◌∷◌, ◌++◌, drop, true, ok, arith}
use ipcap.Storage.Io.{Sys}
use ipcap.Storage.Triple.{After}
use ipcap.Transport.Conn.{Cipher, Sender, write, read_many, key_allowed}
use ipcap.Transport.Carries.{Paired, Broken}
use ipcap.Transport.RoundTrip.{read_many-write}

abbrev tag : List ℕ
tag = 0 ∷ 0 ∷ 0 ∷ 0 ∷ 0 ∷ 0 ∷ 0 ∷ 0 ∷ 0 ∷ 0 ∷ 0 ∷ 0 ∷ 0 ∷ 0 ∷ 0 ∷ 0 ∷ []

-- The tag stands in front, and the states count the messages.
abbrev toy : Cipher ℕ
toy = record { encrypt = λ n pt. ok (tag ++ pt, n + 1); decrypt = λ n ct. ok (drop 16 ct, n + 1) }

toy-Paired : Paired toy (λ s r. s ≡ r)
toy-Paired = record {
  seals =
      λ s r pt same fits. (tag ++ pt, s + 1, r + 1, refl, refl, omega arith, ap (λ n. n + 1) same);
}

abbrev fresh : Sys (Sender ℕ)
fresh = record { state = record { send = 0; raw = [] }; faults = [] }

known_key : key_allowed ((1 ∷ 2 ∷ []) ∷ (3 ∷ 4 ∷ []) ∷ []) (3 ∷ 4 ∷ []) ≡ true
unfolding key_allowed
known_key = refl

read_many-write_example :
    After
      (λ n c.
        (n ≡ 3)
        × (read_many toy (2 ∷ 1 ∷ 5 ∷ []) (record { recv = 0; raw = c.raw; buf = [] })
            ≡ 7 ∷ 8 ∷ 9 ∷ []))
      (Broken toy (λ s r. s ≡ r) toy-Paired 0 [] (7 ∷ 8 ∷ 9 ∷ []))
      []
      (write toy (7 ∷ 8 ∷ 9 ∷ []) fresh)
read_many-write_example =
    read_many-write toy (λ s r. s ≡ r) toy-Paired (7 ∷ 8 ∷ 9 ∷ []) (2 ∷ 1 ∷ 5 ∷ []) 0 fresh refl
      refl (omega arith) (omega arith)
