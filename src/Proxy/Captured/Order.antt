-- ===== src/Proxy/Captured/Order.antt =====
-- The order in which `run_play_phase` of crates/mc-proxy/src/server.rs finds its files.
use pico_server_rs.Base.{
  ℕ, ◌≡◌, refl, sym, ap, ◌∙◌, List, [], ◌∷◌, false, Option, none, some, ◌==◌, All, arith,
  Bool-cases, inl, inr, take,
}
use mathlib.Core.List.{Perm, Permᴰ}
use mathlib.Core.List.Permᴰ.{nil, cons, swap, trans}
use mathlib.Core.Logic.{∥∥₁_elim}
use mathlib.Core.Path.{subst}
use pico_server_rs.Base.Words.{Bytes}
use pico_server_rs.Proxy.Captured.{
  captured_name, insert_packet, with_file, pkt_map, values, play_packets,
}

insert_packet_comm :
    (n m : ℕ) (p q : ℕ × Bytes) (entries : List (ℕ × (ℕ × Bytes)))
    → (n == m) ≡ false
    → insert_packet n p (insert_packet m q entries) ≡ insert_packet m q (insert_packet n p entries)
unfolding insert_packet
insert_packet_comm n m p q [] d = ground arith
insert_packet_comm n m p q ((k, x) ∷ entries) d =
    let ih = insert_packet_comm n m p q entries d in ground arith

-- What is in a directory for a name.
abbrev File : Type 0
File = Bytes × Option Bytes

module _ (packet_at : ℕ → ℕ × Bytes) where
  -- A captured packet that is the one of its number.
  abbrev IsPacket : Option (ℕ × ℕ) → Option Bytes → Type 0
  IsPacket (some (n, pid)) (some body) = (pid, body) ≡ packet_at n
  IsPacket name file = Unit {0}

  -- A file that is the captured packet of its number, if its name is one of a captured packet and it
  -- can be read.
  abbrev pub IsOf : File → Type 0
  unfolding captured_name
  IsOf (name, file) = IsPacket (captured_name name) file

  with_file-swap :
      (entries : List (ℕ × (ℕ × Bytes))) (o o' : Option (ℕ × ℕ)) (file file' : Option Bytes)
      → IsPacket o file
      → IsPacket o' file'
      → with_file (with_file entries o file) o' file'
        ≡ with_file (with_file entries o' file') o file
  with_file-swap entries none o' file file' h k = refl
  with_file-swap entries (some a) none file file' h k = refl
  with_file-swap entries (some a) (some b) none file' h k = refl
  with_file-swap entries (some a) (some b) (some body) none h k = refl
  with_file-swap entries (some (n, pid)) (some (m, pid')) (some body) (some body') h k =
      elim (Bool-cases (n == m)) [
        | inl same ↦
            let e : n ≡ m = ground arith in
            let one : (pid, body) ≡ (pid', body') = h ∙ ap packet_at e ∙ sym k in
            ap (λ p. insert_packet m (pid', body') (insert_packet n p entries)) one
            ∙ ap (λ i. insert_packet m (pid', body') (insert_packet i (pid', body') entries)) e
            ∙ ap (λ i. insert_packet i (pid', body') (insert_packet m (pid', body') entries))
                (sym e)
            ∙ ap (λ p. insert_packet n p (insert_packet m (pid', body') entries)) (sym one)
        | inr other ↦ sym (insert_packet_comm n m (pid, body) (pid', body') entries other)
      ]

  -- The loop over two directories gives the same entries.
  abbrev Same : List (ℕ × (ℕ × Bytes)) → List File → List File → Type 0
  Same entries files files' = (pkt_map entries files ≡ pkt_map entries files') × All IsOf files'

  pkt_map-Permᴰ :
      {files files' : List File} (entries : List (ℕ × (ℕ × Bytes)))
      → Permᴰ files files'
      → All IsOf files
      → Same entries files files'
  unfolding pkt_map
  pkt_map-Permᴰ entries nil h = (refl, tt)
  pkt_map-Permᴰ entries (cons {a = a} {b = b} {l₁ = l} {l₂ = l'} e d) (h, hs) =
      let (same, hs') = pkt_map-Permᴰ (pkt_map entries (a ∷ [])) d hs in
      (same ∙ ap (λ (c : File). pkt_map (pkt_map entries (c ∷ [])) l') e, (subst IsOf e h, hs'))
  pkt_map-Permᴰ entries (swap {a = a} {b = b} {a' = a'} {b' = b'} {l = l} e e') (h, (k, hs)) =
      let swapped =
        ap (λ es. pkt_map es l)
          (with_file-swap entries (captured_name a.0) (captured_name b.0) a.1 b.1 h k) in
      (
        swapped
            ∙ ap (λ (c : File). pkt_map entries (c ∷ a ∷ l)) e'
            ∙ ap (λ (c : File). pkt_map entries (a' ∷ c ∷ l)) e,
        (subst IsOf e' k, (subst IsOf e h, hs)),
      )
  pkt_map-Permᴰ entries (trans d d') h =
      let (first, k) = pkt_map-Permᴰ entries d h in
      let (second, k') = pkt_map-Permᴰ entries d' k in (first ∙ second, k')

  -- Where every file of a captured packet that can be read is the packet of its number, the packets
  -- that are taken do not depend on the order in which the directory lists its files.
  pub play_packets-Perm :
      (files files' : List File)
      → All IsOf files
      → Perm files files'
      → play_packets files ≡ play_packets files'
  unfolding play_packets
  play_packets-Perm files files' h p =
      ∥∥₁_elim p (hlevel) (λ d. ap (λ es. take 213 (values es)) ((pkt_map-Permᴰ [] d h).0))
