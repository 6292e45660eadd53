-- ===== src/Accounts/Writes.antt =====
-- Any writes to the contract slots of a state that starts without contracts
-- (`setContract`, `delContract` of ngstate/state_helper.go).
use ngcore.Base.{ℕ, suc, ◌+◌, ◌^◌, ◌≡◌, ◌≢◌, ◌<◌, refl, ◌∙◌, List, [], ◌∷◌, length, arith}
use ngcore.Types.{Address, Hash, Bytes}
use ngcore.Maps.{lookup}
use ngcore.Maps.Laws.{length-insert_le, length-erase_le}
use ngcore.Accounts.{State, Contract, set_contract, del_contract, get_contract}
use ngcore.Accounts.Shared.{
  IsCounted, set_contract-IsCounted, del_contract-IsCounted, get_contract-set_contract, stored_form,
  slots-set_contract, slots-del_contract,
}

pub data SlotWrite : Type 0 where
  sets : Contract → SlotWrite
  deletes : Address → SlotWrite

abbrev pub written_at : SlotWrite → Address
written_at (sets c) = c.owner
written_at (deletes a) = a

-- Every write is at another address.
abbrev pub Elsewhere : Address → List SlotWrite → Type 0
Elsewhere b [] = Unit
Elsewhere b (w ∷ ws) = (written_at w ≢ b) × Elsewhere b ws

module _ (hash256 : Bytes → Hash) where
  unfoldable pub write_slot : State → SlotWrite → State
  write_slot s (sets c) = set_contract hash256 s c
  write_slot s (deletes a) = del_contract s a

  unfoldable pub write_slots : State → List SlotWrite → State
  unfolding write_slot
  write_slots s [] = s
  write_slots s (w ∷ ws) = write_slots (write_slot s w) ws

  -- What the counting needs of a state before `n` more writes.
  record IsReady (s : State) (n : ℕ) : Type 0 where
    pub counted : IsCounted s
    pub few : length s.slots.current + n < 2 ^ 64

  write_slot-IsReady :
      (s : State) (w : SlotWrite) (n : ℕ) → IsReady s (suc n) → IsReady (write_slot s w) n
  unfolding write_slot
  write_slot-IsReady s (sets c) n ok = record {
    counted = set_contract-IsCounted hash256 s c ok.counted (omega (arith, ok.few));
    few =
        rw (slots-set_contract hash256 s c)
          (omega (arith, ok.few, length-insert_le c.owner (stored_form hash256 c) s.slots.current));
  }
  write_slot-IsReady s (deletes a) n ok = record {
    counted = (del_contract-IsCounted s a (suc a) ok.counted (omega arith)).0;
    few = rw (slots-del_contract s a) (omega (arith, ok.few, length-erase_le a s.slots.current));
  }

  write_slot-others :
      (s : State) (w : SlotWrite) (n : ℕ) (b : Address)
      → IsReady s (suc n)
      → written_at w ≢ b
      → get_contract (write_slot s w) b ≡ get_contract s b
  unfolding write_slot
  write_slot-others s (sets c) n b ok apart =
      get_contract-set_contract hash256 s c b ok.counted apart
  write_slot-others s (deletes a) n b ok apart = (del_contract-IsCounted s a b ok.counted apart).1

  write_slots-others :
      (s : State) (ws : List SlotWrite) (b : Address)
      → IsReady s (length ws)
      → Elsewhere b ws
      → get_contract (write_slots s ws) b ≡ get_contract s b
  unfolding write_slots
  write_slots-others s [] b ok apart = refl
  write_slots-others s (w ∷ ws) b ok apart =
      write_slots-others (write_slot s w) ws b (write_slot-IsReady s w (length ws) ok) apart.1
      ∙ write_slot-others s w (length ws) b ok apart.0

  write_slots-IsReady :
      (s : State) (ws : List SlotWrite) (n : ℕ)
      → IsReady s (length ws + n)
      → IsReady (write_slots s ws) n
  unfolding write_slots
  write_slots-IsReady s [] n ok = record { counted = ok.counted; few = omega (arith, ok.few) }
  write_slots-IsReady s (w ∷ ws) n ok =
      let ready : IsReady s (suc (length ws + n)) = record {
        counted = ok.counted;
        few = omega (arith, ok.few);
      } in
      write_slots-IsReady (write_slot s w) ws n (write_slot-IsReady s w (length ws + n) ready)

  -- In a state that has no contract and no module at first, and after any `before` stores and
  -- deletions of slots, any `after` of them at other addresses leave an address's contract, its code
  -- included, as it was. There are fewer than 2 ^ 64 writes in all, and no unwind among them.
  pub get_contract-write_slots :
      (s : State) (before after : List SlotWrite) (b : Address)
      → s.slots.current ≡ []
      → s.code ≡ []
      → length before + length after < 2 ^ 64
      → Elsewhere b after
      → get_contract (write_slots (write_slots s before) after) b
        ≡ get_contract (write_slots s before) b
  unfolding lookup
  get_contract-write_slots s before after b no_slots no_code few apart =
      let start : IsReady s (length before + length after) = record {
        counted = record { counted = λ h. rw (no_slots, no_code) refl; distinct = rw no_slots tt };
        few = rw no_slots (omega (arith, few));
      } in
      write_slots-others (write_slots s before) after b
        (write_slots-IsReady s before (length after) start) apart
