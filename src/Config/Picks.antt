-- ===== src/Config/Picks.antt =====
-- The default models that applyServerConfig of frontend/src/adapters/use-config-store.ts picks.
use mathlib.Core.List.Memᴰ
use canvas_standalone.Prelude.{
  Distinct, ℕ, String, Bool, true, false, ◌≡◌, refl, ap, ◌∙◌, ◌⊎◌, inl, inr, Option, some, List, [],
  ◌∷◌, All, Memᴰ, has, any, map, find_by, get_or, has-Memᴰ, is_empty, if◌then◌else◌, ◌==◌, eq_iff,
  eq_refl, trim, arith, Bool-cases, Option-cases,
}
use canvas_standalone.Config.{
  Capability, image, video, text, audio, same_capability, is_capability, ChannelModel, Channel,
  model_key, channel_key, channel_id, encode, decode, options_of, normalize_option, name_in,
  find_channel_model, model_capability_of, model_field,
}
use canvas_standalone.Config.Encoding.{decode-encode, NoColon-channel_id}
use canvas_standalone.Config.Server.{
  ServerModel, ServerConfig, server_capability, channel_models, server_channel, pick, picked,
  stored_model, first_option, server_config,
}
use canvas_standalone.Config.Store.{Store, apply_server_config}

-- Names that are trimmed and not empty, each of one model.
pub record IsNamed (m : ServerModel) : Type 0 where
  pub trimmed : trim m.model ≡ m.model
  pub filled : is_empty m.model ≡ false

abbrev pub names : List ServerModel → List String
names [] = []
names (m ∷ ms) = m.model ∷ names ms

-- a model of the server has the capability
abbrev pub offered : List ServerModel → Capability → Bool
offered ms c = any (λ (m : ServerModel). is_capability (server_capability m.media_kind) c) ms

same_eq : (a b : Capability) → same_capability a b ≡ true → a ≡ b
same_eq a b e = ground arith

same_refl : (a : Capability) → same_capability a a ≡ true
same_refl a = ground arith

options_of-Memᴰ :
    (channel : Channel) (c : Capability) (ms : List ChannelModel) (v : String)
    → Memᴰ v (options_of channel c ms)
    → (m : ChannelModel) × Memᴰ m ms × (m.capability ≡ c) × (v ≡ encode channel.id m.name)
unfolding options_of
options_of-Memᴰ channel c [] v h = absurd (Memᴰ.not-nil h)
options_of-Memᴰ channel c (x ∷ xs) v h = elim (Bool-cases (same_capability x.capability c)) [
  | inl e ↦ elim (Memᴰ.cases_cons (rw e at h)) [
    | inl first ↦ (x, Memᴰ.head refl, same_eq x.capability c e, first)
    | inr later ↦ let (m, k, p, q) = options_of-Memᴰ channel c xs v later in (m, Memᴰ.tail k, p, q)
  ]
  | inr e ↦ let (m, k, p, q) = options_of-Memᴰ channel c xs v (rw e at h) in (m, Memᴰ.tail k, p, q)
]

options_of-nil :
    (channel : Channel) (c : Capability) (ms : List ServerModel)
    → options_of channel c (channel_models ms) ≡ []
    → offered ms c ≡ false
unfolding options_of channel_models
options_of-nil channel c [] e = refl
options_of-nil channel c (m ∷ ms) e = ground (arith, options_of-nil channel c ms)

chosen-Memᴰ :
    (a b : String) (os : List String)
    → (((if has a os then a else if has b os then b else first_option os) ≡ "") × (os ≡ []))
      ⊎ Memᴰ (if has a os then a else if has b os then b else first_option os) os
chosen-Memᴰ a b [] = inl (refl, refl)
chosen-Memᴰ a b (o ∷ os) = elim (Bool-cases (has a (o ∷ os))) [
  | inl e ↦ inr (rw e (has-Memᴰ a (o ∷ os) e))
  | inr e ↦ elim (Bool-cases (has b (o ∷ os))) [
    | inl f ↦ inr (rw e (rw f (has-Memᴰ b (o ∷ os) f)))
    | inr f ↦ inr (rw e (rw f (Memᴰ.head refl)))
  ]
]

pick-Memᴰ :
    (channel : Channel) (preferred : Option String) (c : Capability) (stored : String)
    → ((pick channel preferred c stored ≡ "") × (options_of channel c channel.models ≡ []))
      ⊎ Memᴰ (pick channel preferred c stored) (options_of channel c channel.models)
unfolding pick
pick-Memᴰ channel preferred c stored =
    chosen-Memᴰ (normalize_option stored (channel ∷ []))
      (normalize_option (get_or preferred "") (channel ∷ [])) (options_of channel c channel.models)

names-channel_models :
    (n : String) (ms : List ServerModel)
    → has n (names ms) ≡ false
    → has n (map model_key (channel_models ms)) ≡ false
unfolding channel_models
names-channel_models n [] h = refl
names-channel_models n (m ∷ ms) h = ground (arith, names-channel_models n ms)

Distinct-channel_models :
    (ms : List ServerModel) → Distinct (names ms) → Distinct (map model_key (channel_models ms))
unfolding channel_models
Distinct-channel_models [] h = tt
Distinct-channel_models (m ∷ ms) h = elim (Option-cases (server_capability m.media_kind)) [
  | inl n ↦ rw (n, channel_models) (Distinct-channel_models ms h.1)
  | inr (c, s) ↦
      rw (s, channel_models) (names-channel_models m.model ms h.0, Distinct-channel_models ms h.1)
]

has-model_key :
    (m : ChannelModel) (ms : List ChannelModel) → Memᴰ m ms → has m.name (map model_key ms) ≡ true
has-model_key m [] k = absurd (Memᴰ.not-nil k)
has-model_key m (x ∷ xs) k = elim (Memᴰ.cases_cons k) [
  | inl e ↦ ground (arith, ap model_key e, eq_iff x.name m.name)
  | inr r ↦ ground (arith, has-model_key m xs r)
]

find_by-Memᴰ :
    (m : ChannelModel) (ms : List ChannelModel)
    → Distinct (map model_key ms)
    → Memᴰ m ms
    → find_by model_key m.name ms ≡ some m
find_by-Memᴰ m [] h k = absurd (Memᴰ.not-nil k)
find_by-Memᴰ m (x ∷ xs) h k = elim (Memᴰ.cases_cons k) [
  | inl e ↦ ground (arith, ap model_key e, eq_iff x.name m.name)
  | inr r ↦ elim (Bool-cases (x.name == m.name)) [
    | inl e ↦ absurd (ground (arith, eq_iff x.name m.name, has-model_key m xs r))
    | inr e ↦ rw e (find_by-Memᴰ m xs h.1 r)
  ]
]

named_model :
    (m : ChannelModel) (ms : List ServerModel)
    → All IsNamed ms
    → Memᴰ m (channel_models ms)
    → (trim m.name ≡ m.name) × (is_empty m.name ≡ false)
unfolding channel_models
named_model m [] h k = absurd (Memᴰ.not-nil k)
named_model m (x ∷ xs) h k = elim (Option-cases (server_capability x.media_kind)) [
  | inl n ↦ named_model m xs h.1 (rw (n, channel_models) at k)
  | inr (c, s) ↦ elim (Memᴰ.cases_cons (rw (s, channel_models) at k)) [
    | inl e ↦ rw e (h.0.trimmed, h.0.filled)
    | inr r ↦ named_model m xs h.1 r
  ]
]

model_capability_of-decoded :
    (channels : List Channel) (value id name : String) (channel : Channel) (m : ChannelModel)
    → decode value ≡ some (id, name)
    → is_empty name ≡ false
    → find_by channel_key id channels ≡ some channel
    → find_by model_key name channel.models ≡ some m
    → model_capability_of channels value ≡ some m.capability
unfolding model_capability_of find_channel_model
model_capability_of-decoded channels value id name channel m d f c k =
    let named : name_in (decode value) value ≡ name = rw (d, name_in) (rw f refl) in
    let at_name : find_by model_key (name_in (decode value) value) channel.models ≡ some m =
      ap (λ (n : String). find_by model_key n channel.models) named ∙ k in
    rw (d, model_capability_of, find_channel_model) (rw c (rw at_name refl))

-- The text of a model of the channel leads to the model.
capability-encode :
    (server : ServerConfig) (key : ℕ) (m : ChannelModel)
    → All IsNamed server.models
    → Distinct (names server.models)
    → Memᴰ m (channel_models server.models)
    → model_capability_of (server_channel server key ∷ []) (encode (channel_id key) m.name)
      ≡ some m.capability
unfolding server_channel
capability-encode server key m h d k =
    let (t, f) = named_model m server.models h k in
    let channel = server_channel server key in
    model_capability_of-decoded (channel ∷ []) (encode (channel_id key) m.name) (channel_id key)
      m.name channel m
      (decode-encode (channel_id key) m.name (NoColon-channel_id key)
        ∙ ap (λ (n : String). some (channel_id key, n)) t)
      f (rw (eq_refl (channel_id key)) refl)
      (find_by-Memᴰ m (channel_models server.models) (Distinct-channel_models server.models d) k)

picked-capability :
    (server : ServerConfig) (key : ℕ) (preferred : Option String) (texts : String → String)
    (c : Capability)
    → All IsNamed server.models
    → Distinct (names server.models)
    → ((picked server key preferred texts c ≡ "") × (offered server.models c ≡ false))
      ⊎ (model_capability_of (server_channel server key ∷ []) (picked server key preferred texts c)
          ≡ some c)
unfolding picked server_channel
picked-capability server key preferred texts c h d =
    let channel = server_channel server key in
    let channels = channel ∷ [] in
    elim (pick-Memᴰ channel preferred c (stored_model texts c)) [
      | inl (empty, n) ↦ inl (empty, options_of-nil channel c server.models n)
      | inr k ↦
          let (m, q, same, v) =
            options_of-Memᴰ channel c (channel_models server.models)
              (picked server key preferred texts c) k in
          inr (
            ap (λ (x : String). model_capability_of channels x) v
            ∙ capability-encode server key m h d q
            ∙ ap (λ (x : Capability). some x) same)
    ]

text-apply_server_config :
    (server : ServerConfig) (key : ℕ) (s : Store) (c : Capability)
    → (apply_server_config server key s).config.texts (model_field c)
      ≡ picked server key s.session.model s.config.texts c
unfolding apply_server_config server_config
text-apply_server_config server key s image = refl
text-apply_server_config server key s video = refl
text-apply_server_config server key s text = refl
text-apply_server_config server key s audio = refl

channels-apply_server_config :
    (server : ServerConfig) (key : ℕ) (s : Store)
    → (apply_server_config server key s).config.channels ≡ server_channel server key ∷ []
unfolding apply_server_config server_config
channels-apply_server_config server key s = refl

-- After the server's answer the default model of a capability is one that the channel has for it,
-- or none, and then the server offers no model for it.
pub apply_server_config-picks :
    (server : ServerConfig) (key : ℕ) (s : Store) (c : Capability)
    → All IsNamed server.models
    → Distinct (names server.models)
    → (((apply_server_config server key s).config.texts (model_field c) ≡ "")
        × (offered server.models c ≡ false))
      ⊎ (model_capability_of
            (apply_server_config server key s).config.channels
            ((apply_server_config server key s).config.texts (model_field c))
          ≡ some c)
apply_server_config-picks server key s c h d = rw (text-apply_server_config server key s c) (
    rw (channels-apply_server_config server key s)
      (picked-capability server key s.session.model s.config.texts c h d))
