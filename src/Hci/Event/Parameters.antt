-- ===== src/Hci/Event/Parameters.antt =====
-- Which events are refused, and what is read from the others.
use gatt.Prelude.{
  ℕ, ◌+◌, ◌*◌, ◌/◌, ◌%◌, ◌<◌, ◌≡◌, refl, ◌↔◌, List, [], ◌∷◌, ◌++◌, none, some, arith, length,
  put_uint16,
}
use gatt.Hci.Event.{disconnection_complete, command_complete, command_status}

disconnection_complete-none : (b : List ℕ) → (disconnection_complete b ≡ none) ↔ (length b < 4)
unfolding disconnection_complete
disconnection_complete-none [] = (λ e. omega arith, λ h. refl)
disconnection_complete-none (a ∷ []) = (λ e. omega arith, λ h. refl)
disconnection_complete-none (a ∷ b ∷ []) = (λ e. omega arith, λ h. refl)
disconnection_complete-none (a ∷ b ∷ c ∷ []) = (λ e. omega arith, λ h. refl)
disconnection_complete-none (a ∷ b ∷ c ∷ d ∷ r) = (λ e. cc, λ h. absurd (omega arith))

command_complete-none : (b : List ℕ) → (command_complete b ≡ none) ↔ (length b < 3)
unfolding command_complete
command_complete-none [] = (λ e. omega arith, λ h. refl)
command_complete-none (a ∷ []) = (λ e. omega arith, λ h. refl)
command_complete-none (a ∷ b ∷ []) = (λ e. omega arith, λ h. refl)
command_complete-none (a ∷ b ∷ c ∷ r) = (λ e. cc, λ h. absurd (omega arith))

command_status-none : (b : List ℕ) → (command_status b ≡ none) ↔ (length b < 4)
unfolding command_status
command_status-none [] = (λ e. omega arith, λ h. refl)
command_status-none (a ∷ []) = (λ e. omega arith, λ h. refl)
command_status-none (a ∷ b ∷ []) = (λ e. omega arith, λ h. refl)
command_status-none (a ∷ b ∷ c ∷ []) = (λ e. omega arith, λ h. refl)
command_status-none (a ∷ b ∷ c ∷ d ∷ r) = (λ e. cc, λ h. absurd (omega arith))

-- The events of commands and of a disconnection are refused exactly where they are shorter
-- than their fixed fields: 4 bytes for a disconnection and for a command's status, 3 for a command's
-- completion.
pub events_refused :
    (b : List ℕ)
    → ((disconnection_complete b ≡ none) ↔ (length b < 4))
      × ((command_complete b ≡ none) ↔ (length b < 3))
      × ((command_status b ≡ none) ↔ (length b < 4))
events_refused b = (disconnection_complete-none b, command_complete-none b, command_status-none b)

-- The events of commands and of a disconnection, written with numbers of their widths, are read back.
pub command_events_read :
    (status num op handle reason : ℕ) (params rest : List ℕ)
    → op < 65536
    → handle < 65536
    → (command_complete (num ∷ put_uint16 op ++ params)
        ≡ some (record {
          num_hci_command_packets = num;
          command_op_code = op;
          return_parameters = params;
        }))
      × (command_status (status ∷ num ∷ put_uint16 op ++ rest)
          ≡ some (record { status = status; num_hci_command_packets = num; command_opcode = op }))
      × (disconnection_complete (status ∷ put_uint16 handle ++ (reason ∷ rest))
          ≡ some (record { status = status; connection_handle = handle; reason = reason }))
unfolding command_complete command_status disconnection_complete
command_events_read status num op handle reason params rest ho hh =
    let e : op % 256 + op / 256 % 256 * 256 ≡ op = omega arith in
    let f : handle % 256 + handle / 256 % 256 * 256 ≡ handle = omega arith in
    (rw e refl, rw e refl, rw f refl)
