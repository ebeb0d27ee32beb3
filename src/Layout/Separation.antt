-- ===== src/Layout/Separation.antt =====
-- What the documentation of the crate promises of two structs of one message: they share no memory.
use capnproto_test.Base.{length, ℕ, ◌<◌, ◌≡◌, ◌∙◌}
use capnproto_test.Layout.{Layout, StructSize}
use capnproto_test.Layout.Elements.{Element}
use capnproto_test.Layout.Laws.{Content, Fits, list_limit}

pub record Structs (R : Layout) : Type 1 where
  -- The struct of the builder has its memory in the message.
  pub Live : R.StructBuilder → R.State → Type 0
  -- Neither is the first one the second, nor does a pointer of the first one lead to the second.
  pub Distinct : R.StructBuilder → R.StructBuilder → Type 0

module _ (R : Layout) (C : Content R) (S : Structs R) where
  -- In the state `t`, made of `s`, the struct is there with all its data and pointers.
  pub record Survives (b : R.StructBuilder) (s t : R.State) : Type 0 where
    pub live : S.Live b t
    pub same_data :
        (e : Element) (i : ℕ)
        → Fits (C.size b) e i
        → R.get_data_field_mut b e i t ≡ R.get_data_field_mut b e i s
    pub same_pointers :
        (i : ℕ)
        → C.target (R.get_pointer_field_mut b i) t ≡ C.target (R.get_pointer_field_mut b i) s

  -- A write to `c` is none to the other structs, and a new struct is none of those that there are.
  pub record IsSeparated : Type 0 where
    pub set-Survives :
        (b c : R.StructBuilder) (e : Element) (i v : ℕ) (s : R.State)
        → S.Live b s
        → S.Distinct c b
        → Fits (C.size c) e i
        → Survives b s (R.set_data_field c e i v s)
    pub set_data-Survives :
        (b c : R.StructBuilder) (i : ℕ) (bytes : R.DataReader) (s : R.State)
        → S.Live b s
        → S.Distinct c b
        → i < (C.size c).pointers
        → length (C.contents bytes) < list_limit
        → Survives b s (R.set_data (R.get_pointer_field_mut c i) bytes s)
    pub init_data-Survives :
        (b c : R.StructBuilder) (i n : ℕ) (s : R.State)
        → S.Live b s
        → S.Distinct c b
        → i < (C.size c).pointers
        → n < list_limit
        → Survives b s (R.init_data (R.get_pointer_field_mut c i) n s).1
    pub init_struct-Survives :
        (b c : R.StructBuilder) (i : ℕ) (z : StructSize) (s : R.State)
        → S.Live b s
        → S.Distinct c b
        → i < (C.size c).pointers
        → Survives b s (R.init_struct (R.get_pointer_field_mut c i) z s).1
    -- The struct that a pointer of `b` is set to.
    pub init_struct-Live :
        (b : R.StructBuilder) (i : ℕ) (z : StructSize) (s : R.State)
        → S.Live b s
        → i < (C.size b).pointers
        → S.Live b (R.init_struct (R.get_pointer_field_mut b i) z s).1
    pub init_struct-Distinct :
        (b : R.StructBuilder) (i : ℕ) (z : StructSize) (s : R.State)
        → S.Live b s
        → i < (C.size b).pointers
        → S.Distinct (R.init_struct (R.get_pointer_field_mut b i) z s).0 b
    pub set-Live :
        (b : R.StructBuilder) (e : Element) (i v : ℕ) (s : R.State)
        → S.Live b s
        → Fits (C.size b) e i
        → S.Live b (R.set_data_field b e i v s)

module _ {R : Layout} {C : Content R} {S : Structs R} {b : R.StructBuilder} where
  pub Survives-trans :
      {s t u : R.State} → Survives R C S b s t → Survives R C S b t u → Survives R C S b s u
  Survives-trans h k = record {
    live = k.live;
    same_data = λ e i fits. k.same_data e i fits ∙ h.same_data e i fits;
    same_pointers = λ i. k.same_pointers i ∙ h.same_pointers i;
  }
