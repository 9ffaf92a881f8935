-- ===== src/Arch/Serial/Laws.antt =====
-- The serial line gets every byte, if it becomes ready often enough.
use goshkik_os.Prelude.Run.{done}
use goshkik_os.Arch.Pit.{PortWrite}
use goshkik_os.Arch.Serial.{
  inb, outb, skip_busy, wait_until, serial_port, line_ready, write_serial_char, write_serial,
  ps2_data, ps2_command, ps2_enable_p1, ps2_disable_p1, ps2_disable_p2, ps2_read, ps2_write,
  get_ps2_config, write_ps2_config, new_config, init_ps2,
}
use goshkik_os.Prelude.{
  ℕ, ◌/◌, ◌%◌, ◌≡◌, refl, ◌∙◌, inl, inr, true, false, List, [], ◌∷◌, Option-cases,
}

-- The line becomes ready once for each byte of the string, behind any number of busy states; `rest` is
-- what is left of the states.
pub data IsServed : List ℕ → List ℕ → List ℕ → Type 0 where
  finished : (rest : List ℕ) → IsServed [] rest rest
  busy :
      (c : ℕ) (string : List ℕ) (status : ℕ) (states rest : List ℕ)
      → line_ready status ≡ false
      → IsServed (c ∷ string) states rest
      → IsServed (c ∷ string) (status ∷ states) rest
  ready :
      (c : ℕ) (string : List ℕ) (status : ℕ) (states rest : List ℕ)
      → line_ready status ≡ true
      → IsServed string states rest
      → IsServed (c ∷ string) (status ∷ states) rest

-- the writes of the bytes of a string, latest first, before older ones
pub sent : List ℕ → List PortWrite → List PortWrite
sent [] older = older
sent (c ∷ string) older = sent string ((serial_port, c % 256) ∷ older)

busy_lem :
    (c : ℕ) (string : List ℕ) (status : ℕ) (states : List ℕ) (outputs : List PortWrite)
    → line_ready status ≡ false
    → write_serial (c ∷ string) (record { inputs = status ∷ states; outputs = outputs })
      ≡ write_serial (c ∷ string) (record { inputs = states; outputs = outputs })
unfolding write_serial write_serial_char wait_until skip_busy
busy_lem c string status states outputs h =
    rw h (elim (Option-cases (skip_busy line_ready states)) [
      | inl never ↦ rw never refl
      | inr (left, some_left) ↦ rw some_left refl
    ])

-- If the line becomes ready once for each byte of the string, behind any number of busy states,
-- write_serial returns, and the bytes of the string went to the port in their order, and nothing else.
pub write_serial-IsServed :
    {string states rest : List ℕ} (outputs : List PortWrite)
    → IsServed string states rest
    → write_serial string (record { inputs = states; outputs = outputs })
      ≡ done tt (record { inputs = rest; outputs = sent string outputs })
unfolding write_serial write_serial_char wait_until skip_busy outb sent
write_serial-IsServed outputs (finished rest) = refl
write_serial-IsServed outputs (busy c string status states rest h served) =
    busy_lem c string status states outputs h ∙ write_serial-IsServed outputs served
write_serial-IsServed outputs (ready c string status states rest h served) =
    rw h (write_serial-IsServed ((serial_port, c % 256) ∷ outputs) served)

-- A controller that takes every command at once and has its configuration ready gets the commands of
-- init_ps2 in this order: both ports off, the configuration with bits 0 and 6 set (and bit 1 where bit 5
-- is), and the first port on.
pub init_ps2_lem :
    (config free full : ℕ) (rest : List ℕ) (outputs : List PortWrite)
    → free / 2 % 2 ≡ 0
    → full % 2 ≡ 1
    → init_ps2 (record {
      inputs = free ∷ free ∷ free ∷ full ∷ config ∷ free ∷ free ∷ free ∷ rest;
      outputs = outputs;
    })
      ≡ done 0 (record {
        inputs = rest;
        outputs =
            (ps2_command, ps2_enable_p1)
            ∷ (ps2_data, new_config config % 256)
            ∷ (ps2_command, 0x60)
            ∷ (ps2_command, 0x20)
            ∷ (ps2_command, ps2_disable_p2)
            ∷ (ps2_command, ps2_disable_p1)
            ∷ outputs;
      })
unfolding init_ps2 ps2_write ps2_read get_ps2_config write_ps2_config wait_until skip_busy outb inb
init_ps2_lem config free full rest outputs h h' = rw (h, h, h, h', h, h, h) refl
