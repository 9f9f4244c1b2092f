-- ===== src/H2/Steps.antt =====
-- The elementary changes of a connection from which the handlers of H2Proto.h are composed, and how a
-- relation that all of them satisfy is carried through a computation.
pub mod Control
pub mod Data
pub mod Requests
pub mod Loop
pub mod Frames
pub mod Table
pub mod Relations
use http2serv.Prelude.{
  ℕ, ◌+◌, ◌≡◌, refl, arith, Bool, true, false, if◌then◌else◌, ltb, length, take, get_elem?,
}
use http2serv.Prelude.{List, [], ◌∷◌, ◌++◌, Option, none, some, drop}
use http2serv.Hpack.Result.{HpackExCode}
use http2serv.Hpack.StaticTable.{HeaderEntry}
use http2serv.H2.Frame.{word_value}
use http2serv.H2.Streams.{
  StreamState, StreamItem, StreamList, find_stream, insert_stream, update_stream, update_nonzero,
}
use http2serv.H2.Exec.{
  StreamSettings, Conn, Exec, M, ok, throw, fault, ◌>>=◌, ◌>>◌, throw_if, when, modify, write, skip,
  change_stream, stream0_receives, read_byte, read_bytes, read_word, sub64, get, raise, return,
}

-- No bit that ends a stream or a part of it is cleared.
pub record KeepsBits (s t : StreamState) : Type 0 where
  pub keeps_stream_end : s.stream_end ≡ true → t.stream_end ≡ true
  pub keeps_header_end : s.header_end ≡ true → t.header_end ≡ true
  pub keeps_reset_stream : s.reset_stream ≡ true → t.reset_stream ≡ true
  pub keeps_action_called : s.action_called ≡ true → t.action_called ≡ true

pub KeepsBits-refl : (s : StreamState) → KeepsBits s s
KeepsBits-refl s = record {
  keeps_stream_end = λ h. h;
  keeps_header_end = λ h. h;
  keeps_reset_stream = λ h. h;
  keeps_action_called = λ h. h;
}

pub KeepsBits-trans : (s t u : StreamState) → KeepsBits s t → KeepsBits t u → KeepsBits s u
KeepsBits-trans s t u p q = record {
  keeps_stream_end = λ h. q.keeps_stream_end (p.keeps_stream_end h);
  keeps_header_end = λ h. q.keeps_header_end (p.keeps_header_end h);
  keeps_reset_stream = λ h. q.keeps_reset_stream (p.keeps_reset_stream h);
  keeps_action_called = λ h. q.keeps_action_called (p.keeps_action_called h);
}

abbrev pub Gentle : (StreamItem → StreamItem) → Type 0
Gentle f = (s : StreamItem) → KeepsBits s.state (f s).state

-- A preorder of connections that holds between the sides of each elementary change.
pub record IsStep (R : Conn → Conn → Type 0) : Type 0 where
  pub stays : (c : Conn) → R c c
  pub joins : (c d e : Conn) → R c d → R d e → R c e
  pub reads : (n l : ℕ) (c : Conn) → R c (record c { input = drop n c.input; len = l })
  pub writes : (bytes : List ℕ) (c : Conn) → R c (record c { sent = c.sent ++ (bytes ∷ []) })
  pub closes : (b : Bool) (c : Conn) → R c (record c { closing = b })
  pub calls : (id : ℕ) (c : Conn) → R c (record c { actions = c.actions ++ (id ∷ []) })
  pub tables : (t : List HeaderEntry) (c : Conn) → R c (record c { table = t })
  pub sets : (st : StreamSettings) (c : Conn) → R c (record c { settings = st })
  pub updates :
      (id : ℕ) (f : StreamItem → StreamItem) (c : Conn)
      → Gentle f
      → R c (record c { streams = update_stream id f c.streams })
  pub inserts :
      (id : ℕ) (s : StreamItem) (c : Conn)
      → R c (record c { streams = insert_stream id s c.streams })
  pub shifts :
      (f : StreamItem → StreamItem) (c : Conn)
      → Gentle f
      → R c (record c { streams = update_nonzero f c.streams })
  pub opens :
      (s : StreamItem) (c : Conn) → c.streams ≡ [] → R c (record c { streams = (0, s) ∷ [] })

-- The state that a computation ends in, or throws in.
abbrev pub Arrives {ℓ} : {A : Type ℓ} → (Conn → Conn → Type 0) → Conn → Exec A → Type 0
Arrives R c (ok a d) = R c d
Arrives R c (throw e id d) = R c d
Arrives R c fault = Unit {0}

-- Whatever relation the elementary changes satisfy, the computation does.
pub record Keeps {ℓ} {A : Type ℓ} (m : M A) : Type 1 where
  pub run : (R : Conn → Conn → Type 0) → IsStep R → (c : Conn) → Arrives R c (m c)

pub if-Arrives {ℓ} :
    {A : Type ℓ} (R : Conn → Conn → Type 0) (c : Conn) (b : Bool) (x y : Exec A)
    → Arrives R c x
    → Arrives R c y
    → Arrives R c (if b then x else y)
if-Arrives R c true x y p q = p
if-Arrives R c false x y p q = q

extend {ℓ} :
    {A : Type ℓ} (R : Conn → Conn → Type 0)
    → IsStep R
    → (c d : Conn) (x : Exec A) → R c d
    → Arrives R d x
    → Arrives R c x
extend R step c d (ok a e) p q = step.joins c d e p q
extend R step c d (throw e id f) p q = step.joins c d f p q
extend R step c d fault p q = tt

bind-Arrives {ℓ κ} :
    {A : Type ℓ} {B : Type κ} (R : Conn → Conn → Type 0)
    → IsStep R
    → (c : Conn) (x : Exec A) (f : A → M B) → Arrives R c x
    → ((a : A) → Keeps (f a))
    → Arrives R c (elim x [ ok a d ↦ f a d | throw e id d ↦ throw e id d | fault ↦ fault ])
bind-Arrives R step c (ok a d) f p q = extend R step c d (f a d) p ((q a).run R step d)
bind-Arrives R step c (throw e id d) f p q = p
bind-Arrives R step c fault f p q = tt

bind-Keeps {ℓ κ} :
    {A : Type ℓ} {B : Type κ} (m : M A) (f : A → M B)
    → Keeps m
    → ((a : A) → Keeps (f a))
    → Keeps (m >>= f)
bind-Keeps m f p q = record { run = λ R step c. bind-Arrives R step c (m c) f (p.run R step c) q }

infixr 3 ◌|>>◌
pub ◌|>>◌ {ℓ κ} :
    {A : Type ℓ} {B : Type κ} {m : M A} {f : A → M B}
    → Keeps m
    → ((a : A) → Keeps (f a))
    → Keeps (m >>= f)
p |>> q = bind-Keeps _ _ p q

pub return-Keeps {ℓ} : {A : Type ℓ} (a : A) → Keeps (return a)
return-Keeps a = record { run = λ R step c. step.stays c }

pub raise-Keeps {ℓ} : {A : Type ℓ} (e : HpackExCode) (id : ℕ) → Keeps (raise {A = A} e id)
raise-Keeps e id = record { run = λ R step c. step.stays c }

pub throw_if-Keeps : (b : Bool) (e : HpackExCode) (id : ℕ) → Keeps (throw_if b e id)
throw_if-Keeps b e id = record {
  run = λ R step c. if-Arrives R c b _ _ (step.stays c) (step.stays c);
}

pub if-Keeps {ℓ} :
    {A : Type ℓ} (b : Bool) (m k : M A) → Keeps m → Keeps k → Keeps (if b then m else k)
if-Keeps true m k p q = p
if-Keeps false m k p q = q

pub when-Keeps : (b : Bool) (m : M (Unit {0})) → Keeps m → Keeps (when b m)
when-Keeps b m p = record {
  run = λ R step c. if-Arrives R c b (m c) _ (p.run R step c) (step.stays c);
}

pub get-Keeps : Keeps get
get-Keeps = record { run = λ R step c. step.stays c }

pub write-Keeps : (bytes : List ℕ) → Keeps (write bytes)
write-Keeps bytes = record { run = λ R step c. step.writes bytes c }

pub skip-Keeps : (n : ℕ) → Keeps (skip n)
skip-Keeps n = record { run = λ R step c. step.reads n (sub64 c.len n) c }

pub change_stream-Keeps :
    (id : ℕ) (f : StreamItem → StreamItem) → Gentle f → Keeps (change_stream id f)
change_stream-Keeps id f g = record { run = λ R step c. step.updates id f c g }

pub stream0_receives-Keeps : Keeps stream0_receives
unfolding stream0_receives
stream0_receives-Keeps = record {
  run = λ R step c.
      elim (find_stream 0 c.streams)
        as (λ x. Arrives R c (elim x [ some s ↦ ok s.state.header_received c | none ↦ fault ])) [
          | some s ↦ step.stays c
          | none ↦ tt
        ];
}

pub read_byte-Keeps : (i : ℕ) → Keeps (read_byte i)
unfolding read_byte
read_byte-Keeps i = record {
  run = λ R step c.
      elim (get_elem? c.input i) as (λ x. Arrives R c (elim x [ some b ↦ ok b c | none ↦ fault ])) [
        | some b ↦ step.stays c
        | none ↦ tt
      ];
}

pub read_bytes-Keeps : (n : ℕ) → Keeps (read_bytes n)
unfolding read_bytes
read_bytes-Keeps n = record {
  run = λ R step c. if-Arrives R c (ltb (length c.input) n) fault _ tt (step.stays c);
}

pub read_word-Keeps : (i : ℕ) → Keeps (read_word i)
unfolding read_word
read_word-Keeps i = read_byte-Keeps i |>> λ a. read_byte-Keeps (i + 1) |>> λ b.
    read_byte-Keeps (i + 2) |>> λ d.
    read_byte-Keeps (i + 3) |>> λ e. return-Keeps (word_value a b d e)
