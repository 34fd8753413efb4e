-- ===== src/Handler/Sending.antt =====
-- `write_dataset`: what has been sent when it returns a number of bytes.
use pm_lab_tools.Prelude.{
  ℕ, ◌+◌, ◌%◌, ◌^◌, ◌<◌, ◌≡◌, refl, ap, ◌⊎◌, inl, inr, List, [], ◌∷◌, ◌++◌, arith, length, take,
  append-nil, length-append,
}
use pm_lab_tools.Prelude.Int.{pos, negsuc, to_int32}
use pm_lab_tools.Utils.{Answer, Ending, returned, aborted, blocked, Written, send, full_write}
use pm_lab_tools.Utils.Write.{full_write-all}
use pm_lab_tools.Protocol.{magic_data_set, DataSet, Protobuf}
use pm_lab_tools.Protocol.Words.{htonl, length-htonl}
use pm_lab_tools.Handler.Dataset.{checked, data_set, write_dataset}

Ending-cases :
    (e : Ending)
    → ((k : ℕ) × (e ≡ returned (pos k)))
      ⊎ ((k : ℕ) × (e ≡ returned (negsuc k)))
      ⊎ (e ≡ aborted)
      ⊎ (e ≡ blocked)
Ending-cases (returned (pos k)) = inl (k, refl)
Ending-cases (returned (negsuc k)) = inr (inl (k, refl))
Ending-cases aborted = inr (inr (inl refl))
Ending-cases blocked = inr (inr (inr refl))

checked-pos :
    (size : ℕ) (sent : List ℕ) (k : ℕ) (next : ℕ → Written) (n : ℕ)
    → (checked size (record { sent = sent; ending = returned (pos k) }) next).ending
      ≡ returned (pos n)
    → (checked size (record { sent = sent; ending = returned (pos k) }) next
        ≡ send sent (next size))
      × (to_int32 k ≡ pos size)
checked-pos size sent k next n e = ground arith

-- Behind a `full_write` that has to succeed: it has sent all, and the rest has returned.
pub checked-returned :
    (buf : List ℕ) (out : List Answer) (next : ℕ → Written) (n : ℕ)
    → (checked (length buf) (full_write buf out) next).ending ≡ returned (pos n)
    → (checked (length buf) (full_write buf out) next ≡ send buf (next (length buf)))
      × (to_int32 (length buf) ≡ pos (length buf))
checked-returned buf out next n e = elim (Ending-cases (full_write buf out).ending) [
  | inl (k, q) ↦
      let all = full_write-all buf out k q in
      rw all (checked-pos (length buf) buf (length buf) next n (rw all at e))
  | inr (inl (k, q)) ↦ absurd (ground arith)
  | inr (inr (inl q)) ↦ absurd (ground arith)
  | inr (inr (inr q)) ↦ absurd (ground arith)
]

-- Three `full_write`s, one after the other.
three_writes : List ℕ → List ℕ → List ℕ → List Answer → List Answer → List Answer → Written
three_writes head size body out₁ out₂ out₃ = checked (length head) (full_write head out₁) λ err₁.
    checked (length size) (full_write size out₂) λ err₂.
      checked (length body) (full_write body out₃)
        λ err₃. record { sent = []; ending = returned (to_int32 (err₁ + err₂ + err₃)) }

three_writes-returned :
    (head size body : List ℕ) (out₁ out₂ out₃ : List Answer) (n : ℕ)
    → let w = three_writes head size body out₁ out₂ out₃ in
      w.ending ≡ returned (pos n)
      → (w.sent ≡ head ++ (size ++ body))
        × (pos n ≡ to_int32 (length (head ++ (size ++ body))))
        × (to_int32 (length body) ≡ pos (length body))
unfolding three_writes
three_writes-returned head size body out₁ out₂ out₃ n e =
    let (all₁, _) = checked-returned head out₁ _ n e in
    let e₁ = rw all₁ at e in
    let (all₂, _) = checked-returned size out₂ _ n e₁ in
    let e₂ = rw all₂ at e₁ in
    let (all₃, int) = checked-returned body out₃ _ n e₂ in
    let e₃ = rw all₃ at e₂ in
    let sum : length (head ++ (size ++ body)) ≡ length head + length size + length body =
      omega (arith, length-append head (size ++ body), length-append size body) in
    (rw (all₁, all₂, all₃, append-nil body), rw sum (ground arith), int)

length-take_all {ℓ} : {A : Type ℓ} (xs : List A) → take (length xs) xs ≡ xs
length-take_all [] = refl
length-take_all (x ∷ xs) = ap (◌∷◌ x) (length-take_all xs)

module _ {Double : Type 0} (pb : Protobuf Double) where
  -- The bytes of a data set on the wire: the magic string, the length in network order, and the
  -- packed message.
  unfoldable pub framed : DataSet Double → List ℕ
  framed msg = magic_data_set ++ (htonl (pb.get_packed_size msg) ++ pb.pack msg)

  pub length-framed : (msg : DataSet Double) → length (framed msg) ≡ 21 + 4 + pb.get_packed_size msg
  unfolding framed magic_data_set
  length-framed msg = omega (
    arith,
    length-append magic_data_set (htonl (pb.get_packed_size msg) ++ pb.pack msg),
    length-append (htonl (pb.get_packed_size msg)) (pb.pack msg),
    length-htonl (pb.get_packed_size msg),
    pb.length-pack msg,
  )

  write_dataset-three :
      (channel_ids : List ℕ) (len timestamp : ℕ) (analog : List Double) (digital : List ℕ)
      (out₁ out₂ out₃ : List Answer)
      → let msg = data_set channel_ids len timestamp analog digital in
        pb.get_packed_size msg < 2 ^ 32
        → write_dataset pb channel_ids len timestamp analog digital out₁ out₂ out₃
          ≡ three_writes magic_data_set
              (htonl (pb.get_packed_size msg))
              (pb.pack msg)
              out₁
              out₂
              out₃
  unfolding write_dataset three_writes htonl
  write_dataset-three channel_ids len timestamp analog digital out₁ out₂ out₃ small =
      let msg = data_set channel_ids len timestamp analog digital in
      let fits : pb.get_packed_size msg % 2 ^ 32 ≡ pb.get_packed_size msg = omega arith in
      rw (fits, ← pb.length-pack msg, length-take_all (pb.pack msg))

  -- A `write_dataset` of a message of less than 2^32 bytes that returns a number that is not
  -- negative has sent the magic string, the length in network order and the packed message, whole
  -- and in this order; the number is the length of that, and the packed message is shorter than
  -- 2^31 bytes.
  pub write_dataset-framed :
      (channel_ids : List ℕ) (len timestamp : ℕ) (analog : List Double) (digital : List ℕ)
      (out₁ out₂ out₃ : List Answer) (n : ℕ)
      → let msg = data_set channel_ids len timestamp analog digital in
        let w = write_dataset pb channel_ids len timestamp analog digital out₁ out₂ out₃ in
        pb.get_packed_size msg < 2 ^ 32
        → w.ending ≡ returned (pos n)
        → (w.sent ≡ framed msg)
          × (pos n ≡ to_int32 (length (framed msg)))
          × (pb.get_packed_size msg < 2 ^ 31)
  unfolding framed
  write_dataset-framed channel_ids len timestamp analog digital out₁ out₂ out₃ n small e =
      let msg = data_set channel_ids len timestamp analog digital in
      let same =
        write_dataset-three channel_ids len timestamp analog digital out₁ out₂ out₃ small in
      let (sent, count, int) =
        three_writes-returned _ _ (pb.pack msg) out₁ out₂ out₃ n (rw same at e) in
      (rw same sent, count, ground (arith, int, pb.length-pack msg))
