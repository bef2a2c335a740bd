-- ===== src/Connect.antt =====
-- Opening the link (`aml_connect` and `connect_with_timeout` of src/aml/transport.c). Messages are
-- left out, and so is `errno` behind a failure, which its caller only prints. The channel is not
-- negative: config_load takes 1 to 30.
pub mod Opened
use sweet_dawn.Base.{
  ℕ, zero, suc, ◌%◌, Bool, true, false, ◌||◌, Option, none, some, ltb, ◌==◌, if◌then◌else◌, length,
}
use sweet_dawn.Os.{
  Errno, einprogress, poll_failed, poll_timeout, poll_ready, Done, done, failed, Os,
}
use sweet_dawn.Protocol.{parser_init}
use sweet_dawn.Transport.{
  Code, ok, err_generic, err_io, connect_timeout_ms, AmlConnection, AmlConfig, is_eintr,
  unconnected,
}

is_einprogress : Errno → Bool
is_einprogress einprogress = true
is_einprogress _ = false

-- The error that is pending on a socket: none if it could not be read.
is_success : Option Done → Bool
is_success (some done) = true
is_success _ = false

module _ (os : Os) where
  open os use {World}

  -- The wait of `connect_with_timeout` for a connection in progress, and its outcome; a poll()
  -- that a signal interrupts is made again.
  connect_wait : ℕ → ℕ → World → Option (Bool × World)
  connect_wait zero fd w = none
  connect_wait (suc fuel) fd w =
      let (p, w') = os.poll_out fd connect_timeout_ms w in
      elim p [
        | poll_failed e ↦ elim (is_eintr e) [
          | true ↦ connect_wait fuel fd w'
          | false ↦ some (false, w')
        ]
        | poll_timeout ↦ some (false, w')
        | poll_ready _ _ ↦ let (e, w'') = os.socket_error fd w' in some (is_success e, w'')
      ]

  -- connect() itself, waited for when it is in progress.
  connect_now : ℕ → ℕ → os.Address → ℕ → World → Option (Bool × World)
  unfolding connect_wait
  connect_now fuel fd address channel w =
      let (result, w') = os.connect fd address channel w in
      elim result [
        | done ↦ some (true, w')
        | failed e ↦ if is_einprogress e then connect_wait fuel fd w' else some (false, w')
      ]

  -- `connect_with_timeout`: whether it returned 0. `errno` is only printed by its caller.
  connect_with_timeout : ℕ → ℕ → os.Address → ℕ → World → Option (Bool × World)
  unfolding connect_now
  connect_with_timeout fuel fd address channel w =
      let (flags, w₁) = os.get_flags fd w in
      elim flags [
        | none ↦ some (false, w₁)
        | some fl ↦
            let (set, w₂) = os.set_flags fd fl true w₁ in
            elim set [
              | failed e ↦ some (false, w₂)
              | done ↦ elim (connect_now fuel fd address channel w₂) [
                | none ↦ none
                | some (connected, w₃) ↦ elim connected [
                  | false ↦ some (false, w₃)
                  | true ↦
                      let (reset, w₄) = os.set_flags fd fl false w₃ in
                      some (is_success (some reset), w₄)
                ]
              ]
            ]
      ]

  -- The socket of `aml_connect` once both addresses are known and it is bound.
  connect_bound : ℕ → AmlConfig → ℕ → World → Option (Code × AmlConnection × World)
  unfolding connect_with_timeout
  connect_bound fuel config fd w = elim (os.str2ba config.aml_mac) [
    | none ↦ some (err_generic, unconnected, os.close fd w)
    | some remote ↦ elim (connect_with_timeout fuel fd remote (config.aml_chn % 256) w) [
      | none ↦ none
      | some (false, w') ↦ some (err_io, unconnected, os.close fd w')
      | some (true, w') ↦ some (ok, record { socket_fd = some fd; parser = parser_init }, w')
    ]
  ]

  -- `aml_connect`: the code, the connection as it leaves it, and the world.
  unfoldable pub aml_connect : ℕ → AmlConfig → World → Option (Code × AmlConnection × World)
  unfolding connect_bound is_eintr is_einprogress is_success
  aml_connect fuel config w =
      if length config.blt_mac == 0
        || length config.aml_mac == 0
        || ltb config.aml_chn 1
        || ltb 30 config.aml_chn
      then some (err_generic, unconnected, w)
      else let (opened, w₁) = os.socket w in
        elim opened [
          | none ↦ some (err_io, unconnected, w₁)
          | some fd ↦ elim (os.str2ba config.blt_mac) [
            | none ↦ some (err_generic, unconnected, os.close fd w₁)
            | some local ↦
                let (bound, w₂) = os.bind fd local w₁ in
                elim bound [
                  | failed e ↦ some (err_io, unconnected, os.close fd w₂)
                  | done ↦ connect_bound fuel config fd w₂
                ]
          ]
        ]
