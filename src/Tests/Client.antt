-- ===== src/Tests/Client.antt =====
-- The client of the service on a small system and a small JSON library.
use sweet_dawn.Base.{
  ℕ, ◌≡◌, true, false, Option, none, some, List, [], ◌∷◌, String, refl, ap, arith, length, same,
  if◌then◌else◌,
}
use sweet_dawn.Os.{Received, recv_closed, recv_bytes, sent}
use sweet_dawn.Protocol.{Bytes}
use sweet_dawn.Json.{
  JsonLib, Kind, null_kind, boolean_kind, int_kind, object_kind, array_kind, string_kind,
}
use sweet_dawn.Ipc.{IpcClient, Handled, handled_step, process_message, find_newline}
use sweet_dawn.Ipc.Lines.{lines_of}
use sweet_dawn.Ctl.{Net, suivre, connexion_perdue, after_recv, requete}
use sweet_dawn.Ctl.Stream.{Reads, suivre-lines}
use sweet_dawn.Json.Built.{Builds, member}
use sweet_dawn.Ctl.Asked.{arguments, requete-handled}

-- What is still to be received.
abbrev next : List Bytes → Received × List Bytes
next [] = (recv_closed, [])
next (b ∷ rest) = (recv_bytes b, rest)

abbrev wires : Net
wires = record {
  World = List Bytes;
  socket = λ w. (some 3, w);
  connect = λ fd path w. (true, w);
  close = λ fd w. w;
  receive_timeout = λ fd t w. w;
  send = λ fd b w. (sent (length b), w);
  recv = λ fd n w. next w;
}

-- Two lines and a beginning, in two reads.
suivre_runs :
    suivre wires 9 3 [] [] ((7 ∷ 0x0A ∷ 8 ∷ []) ∷ (9 ∷ 0x0A ∷ 5 ∷ []) ∷ [])
    ≡ some ((7 ∷ []) ∷ (8 ∷ 9 ∷ []) ∷ [], connexion_perdue, [])
unfolding suivre after_recv find_newline
suivre_runs = refl

suivre-lines_example :
    (bytes : Bytes) × Reads wires 3 ((7 ∷ 0x0A ∷ 8 ∷ []) ∷ (9 ∷ 0x0A ∷ 5 ∷ []) ∷ []) bytes []
    × ((7 ∷ []) ∷ (8 ∷ 9 ∷ []) ∷ [] ≡ lines_of bytes)
suivre-lines_example =
    suivre-lines wires 9 3 ((7 ∷ 0x0A ∷ 8 ∷ []) ∷ (9 ∷ 0x0A ∷ 5 ∷ []) ∷ [])
      ((7 ∷ []) ∷ (8 ∷ 9 ∷ []) ∷ []) connexion_perdue [] suivre_runs

-- A document.
mutual
  pub data Doc : Type 0 where
    leaf : Kind → Doc
    text : String → Doc
    table : Members → Doc
    row : Docs → Doc

  pub data Members : Type 0 where
    no_member : Members
    one_more : String → Doc → Members → Members

  pub data Docs : Type 0 where
    no_doc : Docs
    then_doc : Doc → Docs → Docs

abbrev kind_of : Doc → Kind
kind_of (leaf k) = k
kind_of (text s) = string_kind
kind_of (table ms) = object_kind
kind_of (row ds) = array_kind

abbrev table_of : List (String × Doc) → Members
table_of [] = no_member
table_of ((k, d) ∷ more) = one_more k d (table_of more)

abbrev lookup : String → Members → Option Doc
lookup key no_member = none
lookup key (one_more k d more) =
    let later = lookup key more in
    elim later [ none ↦ if same k key then some d else none | some last ↦ some last ]

abbrev get : Doc → String → Option Doc
get (table ms) key = lookup key ms
get _ key = none

abbrev row_of : List Doc → Docs
row_of [] = no_doc
row_of (d ∷ ds) = then_doc d (row_of ds)

abbrev docs_of : Docs → List Doc
docs_of no_doc = []
docs_of (then_doc d ds) = d ∷ docs_of ds

abbrev items_of : Doc → List Doc
items_of (row ds) = docs_of ds
items_of _ = []

abbrev text_of : Doc → String
text_of (text s) = s
text_of _ = ""

-- What the client asks: "Light/Enable" with "true".
abbrev pub light_on : Doc
light_on = table (
    one_more "type" (text "request") (
      one_more "id" (leaf int_kind) (
        one_more "command" (text "Light/Enable")
          (one_more "args" (row (then_doc (text "true") no_doc)) no_member))))

abbrev pub docs : JsonLib
docs = record {
  Value = Doc;
  kind = kind_of;
  tokener_parse = λ m. (some light_on, true, length m);
  get_ex = get;
  get_string = text_of;
  get_bytes = λ d. [];
  text_of = λ d. some (text_of d);
  get_int = λ d. some 1;
  from_file = λ p. none;
  array = items_of;
  to_json_string = λ d. some (0x7B ∷ 0x7D ∷ []);
  new_object = λ ms. table (table_of ms);
  new_string = text;
  new_boolean = λ b. leaf boolean_kind;
  new_null = leaf null_kind;
  new_int = λ n. leaf int_kind;
  new_int64 = λ z. leaf int_kind;
  new_double_s = text;
  new_array = λ vs. row (row_of vs);
}

lookup-member : (ms : List (String × Doc)) (key : String) → lookup key (table_of ms) ≡ member key ms
lookup-member [] key = refl
lookup-member ((k, d) ∷ more) key =
    ap
      (λ (x : Option Doc). elim x [
        | none ↦ if same k key then some d else none
        | some last ↦ some last
      ])
      (lookup-member more key)

docs-row : (ds : List Doc) → docs_of (row_of ds) ≡ ds
docs-row [] = refl
docs-row (d ∷ ds) = ap (λ x. d ∷ x) (docs-row ds)

pub built : Builds docs
built = record {
  objects = λ ms. refl;
  members = λ ms key. lookup-member ms key;
  strings = λ s. refl;
  texts = λ s. refl;
  ints = λ n. refl;
  arrays = λ vs. refl;
  items = λ vs. docs-row vs;
}

abbrev client : IpcClient
client = record { fd = some 5; subscribed = false; input = []; output = []; output_offset = 0 }

-- A handler that counts.
abbrev counting : ℕ → String → Doc → Handled Doc × ℕ
counting n command args = (record { handled = true; result = none; code = none; message = none }, n)

requete-handled_example :
    process_message docs (some counting) client (0x7B ∷ 0x7D ∷ []) 4
    ≡ handled_step docs
        (some counting)
        client
        light_on
        (counting 4 "Light/Enable" (docs.new_array (arguments docs (some "true"))))
unfolding requete
requete-handled_example =
    requete-handled docs (λ b. none) (λ v. true) (λ v. false) (λ v. []) built counting client 4
      "Light/Enable" (some "true") (0x7B ∷ 0x7D ∷ []) (λ e. ground arith) refl refl refl
