-- ===== src/Tests/Served.antt =====
-- The local server on a small JSON library and small sockets.
use sweet_dawn.Base.{
  ℕ, suc, ◌≤◌, ◌≡◌, Bool, true, false, not, Option, none, some, List, [], ◌∷◌, ◌++◌, String, refl,
  sym, ap, arith, length, take, drop, same, take-length, ◌==◌, if◌then◌else◌,
}
use sweet_dawn.Os.{sent, eagain, recv_bytes}
use sweet_dawn.Protocol.{Bytes}
use sweet_dawn.Json.{
  JsonLib, Kind, null_kind, boolean_kind, int_kind, object_kind, array_kind, string_kind,
}
use sweet_dawn.Ipc.{
  IpcClient, Handled, free_client, process_buffered_message, line_of, find_newline, max_clients,
}
use sweet_dawn.Ipc.Sockets.{
  Sockets, accepted, accept_failed, ready, ready_timeout, after_read, write_client, after_write,
}
use sweet_dawn.Ipc.Progress.{HasMoved, process_one-HasMoved}
use sweet_dawn.Ipc.Run.{process_one, IpcServer, run_loop, broadcast_all, free_clients}
use sweet_dawn.Ipc.Lines.{elsewhere, idle, reads, treats, Serves.others, Follows, Serves-lines}
use sweet_dawn.Ipc.Output.{write_client_complete}
use sweet_dawn.Ipc.Sound.{AllSound}
use sweet_dawn.Ipc.Turns.{run_loop-AllSound, free-AllSound}
use sweet_dawn.Ipc.Broadcast.{broadcast_heard}
use sweet_dawn.Tests.World.{length-take_le}

-- A document: a leaf of some kind, the request 7 for the command "get", or a file that describes one
-- device.
pub data Document : Type 0 where
  leaf : Kind → Document
  text : String → Document
  request : Document
  file entry : Document

abbrev document_kind : Document → Kind
document_kind (leaf k) = k
document_kind (text s) = string_kind
document_kind request = object_kind
document_kind entry = object_kind
document_kind file = array_kind

abbrev member : Document → String → Option Document
member request key =
    if same key "type"
    then some (text "request")
    else if same key "id"
    then some (leaf int_kind)
    else if same key "command"
    then some (text "get")
    else if same key "args"
    then some (leaf array_kind)
    else none
member entry key =
    if same key "name"
    then some (text "bed")
    else if same key "AML_CHN"
    then some (leaf int_kind)
    else some (text "address")
member _ key = none

abbrev document_text : Document → String
document_text (text s) = s
document_text _ = ""

-- Only a message of one byte is a document.
abbrev parsed : Bytes → Option Document × Bool × ℕ
parsed m = if length m == 1 then (some request, true, 1) else (none, false, 0)

-- A name and an address.
abbrev pub bedroom : Bytes
bedroom = 0x62 ∷ 0x65 ∷ 0x64 ∷ []

abbrev pub address : Bytes
address =
    0x41 ∷ 0x30 ∷ 0x3A ∷ 0x41 ∷ 0x31 ∷ 0x3A ∷ 0x41 ∷ 0x32 ∷ 0x3A ∷ 0x41 ∷ 0x33 ∷ 0x3A ∷ 0x41 ∷ 0x34
    ∷ 0x3A ∷ 0x61 ∷ 0x35 ∷ []

abbrev document_bytes : Document → Bytes
document_bytes (text s) = if same s "bed" then bedroom else address
document_bytes _ = []

abbrev document_array : Document → List Document
document_array file = entry ∷ []
document_array _ = []

abbrev pub documents : JsonLib
documents = record {
  Value = Document;
  kind = document_kind;
  tokener_parse = parsed;
  get_ex = member;
  get_string = document_text;
  get_bytes = document_bytes;
  text_of = λ v. some (document_text v);
  get_int = λ v. some 6;
  from_file = λ path. some file;
  array = document_array;
  to_json_string = λ v. some (0x7B ∷ 0x7D ∷ []);
  new_object = λ ms. leaf object_kind;
  new_string = text;
  new_boolean = λ b. leaf boolean_kind;
  new_null = leaf null_kind;
  new_int = λ n. leaf int_kind;
  new_int64 = λ z. leaf int_kind;
  new_double_s = text;
  new_array = λ vs. leaf array_kind;
}

-- What is to be received, and what was sent.
pub record Wires : Type 0 where
  pub arriving : Bytes
  pub out : Bytes
  pub waiting : Bool
  pub stop : Bool

pub taken_fits : (n : ℕ) (all b : Bytes) → recv_bytes (take n all) ≡ recv_bytes b → length b ≤ n
taken_fits n all b h = ground (arith, length-take_le n all)

abbrev pub wires : Sockets
wires = record {
  World = Wires;
  recv = λ fd n w. (recv_bytes (take n w.arriving), record w { arriving = drop n w.arriving });
  send = λ fd b w. (sent (length b), record w { out = w.out ++ b });
  close = λ fd w. w;
  accept =
      λ w. (if w.waiting then accepted 5 else accept_failed eagain, record w { waiting = false });
  set_nonblocking = λ fd w. (true, w);
  poll = λ asked w.
      (if w.waiting then ready true [] else ready_timeout, record w { stop = not w.waiting });
  stop_requested = λ w. w.stop;
  recv_fits = λ fd n w b h. taken_fits n w.arriving b h;
}

abbrev pub nothing_sent : Wires
nothing_sent = record { arriving = []; out = []; waiting = true; stop = false }

-- A handler that accepts every command.
abbrev accepting : Option (ℕ → String → Document → Handled Document × ℕ)
accepting = some (λ n command args.
    (record { handled = true; result = none; code = none; message = none }, suc n))

abbrev client : IpcClient
client = record { fd = some 5; subscribed = true; input = []; output = []; output_offset = 0 }

Serves-lines_example :
    Follows wires documents accepting client 0
      (0x37 ∷ 0x0D ∷ 0x0A ∷ 0x38 ∷ [])
      (elsewhere 5 ∷ [])
      (record client { input = 0x38 ∷ []; output = 0x7B ∷ 0x7D ∷ 0x0A ∷ [] })
      6
unfolding after_read process_buffered_message find_newline line_of
Serves-lines_example =
    Serves-lines wires documents accepting {c = client}
      {d = record client { input = 0x38 ∷ []; output = 0x7B ∷ 0x7D ∷ 0x0A ∷ [] }} {ctx = 0}
      {ctx' = 6}
      (reads {bytes = 0x37 ∷ 0x0D ∷ []} refl
        (reads {bytes = 0x0A ∷ 0x38 ∷ []} refl (others 5 (treats refl idle))))

abbrev queued : IpcClient
queued = record client { output = 1 ∷ 2 ∷ 3 ∷ 4 ∷ []; output_offset = 1 }

all_counts :
    (b out : Bytes) (n : ℕ)
    → sent (length b) ≡ sent n
    → (n ≤ length b) × (out ++ b ≡ out ++ take n b)
all_counts b out n h =
    let e : length b ≡ n = ground arith in
    (omega (arith, e), ap (λ x. out ++ x) (rw (sym e) (sym (take-length b))))

write_client_complete_example : (2 ∷ 3 ∷ 4 ∷ []) ++ [] ≡ [] ++ drop 1 queued.output
unfolding write_client after_write
write_client_complete_example =
    write_client_complete wires (λ fd w. w.out) (λ fd b w n h. all_counts b w.out n h)
      (λ fd b w e h. absurd (ground arith)) 3 5 queued nothing_sent (some client)
      (record nothing_sent { out = 2 ∷ 3 ∷ 4 ∷ [] }) refl

broadcast_heard_example :
    (broadcast_all wires documents accepting
      (λ n. ([], n))
      (request ∷ [])
      (client ∷ free_client ∷ [])
      nothing_sent).0
    ≡ record client { output = 0x7B ∷ 0x7D ∷ 0x0A ∷ [] } ∷ free_client ∷ []
broadcast_heard_example =
    broadcast_heard wires documents accepting (λ n. ([], n)) (request ∷ [])
      (client ∷ free_client ∷ []) nothing_sent

abbrev started : IpcServer ℕ
started = record { running = true; clients = free_clients max_clients; context = 0 }

-- Two turns: a client is accepted, and then a signal arrives.
abbrev served : IpcServer ℕ
served = record started { clients = record free_client { fd = some 5 } ∷ free_clients 15 }

abbrev stopped : Wires
stopped = record nothing_sent { waiting = false; stop = true }

run_loop-AllSound_example : AllSound 16 served.clients
unfolding run_loop
run_loop-AllSound_example =
    run_loop-AllSound wires documents accepting (λ n. ([], n)) 16 3 9 started nothing_sent served
      stopped (free-AllSound 16) refl

abbrev asking : IpcClient
asking = record client { input = 0x37 ∷ 0x0A ∷ 0x38 ∷ [] }

process_one-HasMoved_example :
    HasMoved 1 asking (process_one wires documents accepting (λ n. ([], n)) asking 0 nothing_sent).0
unfolding find_newline
process_one-HasMoved_example =
    process_one-HasMoved wires documents accepting (λ n. ([], n)) asking 5 1 0 nothing_sent refl
      refl refl
