-- ===== src/DevicePlugin/Restarts.antt =====
-- pkg/deviceplugin/deviceplugin.go: no stop channel is closed twice, however often the kubelet
-- restarts.
use uk8s_cni_vpc.Prelude.{
  ℕ, zero, suc, String, ◌≡◌, refl, ◌∙◌, sym, ◌⊎◌, inl, inr, true, false, Bool-cases, ◌&&◌, List, [],
  ◌∷◌, arith,
}
use uk8s_cni_vpc.Result.{Result, ok, err, Error, Result-cases}
use uk8s_cni_vpc.Step.{◌>>=◌}
use uk8s_cni_vpc.DevicePlugin.{
  Kubelet, Plugin, DirEntry, RegisterRequest, open_channel, closed_channel, Stat, there, missing,
  unreadable, Act, on_world, close_stop, stop_serving, drop_error, unlink_each, cleanup,
  make_server, stop_if_serving, start, forget_server, stop_plugin, register, restart,
  watch_kubelet_restart, registered, serve, new_uni_device_plugin, request_for, resource_name,
}

Stat-cases : (x : Stat) → (x ≡ there) ⊎ (x ≡ missing) ⊎ ((e : Error) × (x ≡ unreadable e))
Stat-cases there = inl refl
Stat-cases missing = inr (inl refl)
Stat-cases (unreadable e) = inr (inr (e, refl))

module _ ⦃k : Kubelet⦄ where
  -- A server that runs has an open channel, and nothing panicked.
  pub record Sound (p : Plugin k) : Type 0 where
    pub open_while_serving : p.serving ≡ true → p.stop ≡ open_channel
    pub calm : p.panicked ≡ false

  -- As `Sound`, and no server runs.
  record Stopped (p : Plugin k) : Type 0 where
    idle : p.serving ≡ false
    calm : p.panicked ≡ false

  -- Two plugins that differ in the world at most.
  record SamePlugin (p q : Plugin k) : Type 0 where
    serving : q.serving ≡ p.serving
    stop : q.stop ≡ p.stop
    panicked : q.panicked ≡ p.panicked

  Stopped-Sound : (p : Plugin k) → Stopped p → Sound p
  Stopped-Sound p s = record {
    open_while_serving = λ h. absurd (ground (arith, s.idle));
    calm = s.calm;
  }

  unlink_each-same : (es : List DirEntry) (p : Plugin k) → SamePlugin p (unlink_each es p).1
  unfolding unlink_each
  unlink_each-same [] p = record { serving = refl; stop = refl; panicked = refl }
  unlink_each-same (e ∷ es) p = elim (Bool-cases (k.is_uni_socket e.name && e.is_socket)) [
    | inl ours ↦
        rw (ours, unlink_each) (again (unlink_each-same es (on_world (k.unlink e.name) p).1))
    | inr other ↦ rw (other, unlink_each) (unlink_each-same es p)
  ]
    where
      again : {q : Plugin k} → SamePlugin (on_world (k.unlink e.name) p).1 q → SamePlugin p q
      again s = record { serving = s.serving; stop = s.stop; panicked = s.panicked }

  cleanup-same : (p : Plugin k) → SamePlugin p (cleanup p).1
  unfolding cleanup
  cleanup-same p = elim (Result-cases (k.read_dir p.world).0) [
    | inr (e, bad) ↦ rw (bad, ◌>>=◌) (record { serving = refl; stop = refl; panicked = refl })
    | inl (es, read) ↦
        rw (read, ◌>>=◌)
          (let s = unlink_each-same es (on_world k.read_dir p).1 in
            record { serving = s.serving; stop = s.stop; panicked = s.panicked })
  ]

  same-Stopped : {p q : Plugin k} → SamePlugin p q → Stopped p → Stopped q
  same-Stopped same s = record { idle = same.serving ∙ s.idle; calm = same.panicked ∙ s.calm }

  stop_plugin-Stopped : (p : Plugin k) → Sound p → Stopped (stop_plugin p).1
  unfolding stop_plugin stop_serving forget_server close_stop
  stop_plugin-Stopped p s = elim (Bool-cases p.serving) [
    | inr idle ↦ rw (idle, stop_plugin) (record { idle = idle; calm = s.calm })
    | inl running ↦
        let closed : Plugin k = record p {
          serving = false;
          stop = closed_channel;
          world = k.stop_server p.world;
        } in
        rw (running, stop_plugin)
          (rw (s.open_while_serving running, close_stop)
            (same-Stopped (cleanup-same closed) (record { idle = refl; calm = s.calm })))
  ]

  -- What `Start` does after the clean-up.
  abbrev listening : String → Act (Unit {0})
  listening socket =
      on_world (k.listen socket) >>= λ _. make_server >>= λ _. on_world (k.dial socket)

  listening-Sound : (socket : String) (p : Plugin k) → Stopped p → Sound (listening socket p).1
  unfolding make_server
  listening-Sound socket p s = elim (Result-cases (k.listen socket p.world).0) [
    | inr (e, bad) ↦
        rw (bad, ◌>>=◌)
          (record { open_while_serving = (Stopped-Sound p s).open_while_serving; calm = s.calm })
    | inl (u, heard) ↦ rw (heard, ◌>>=◌) (record { open_while_serving = λ h. refl; calm = s.calm })
  ]

  start-Sound : (p : Plugin k) → Stopped p → Sound (start p).1
  unfolding start stop_if_serving
  start-Sound p s =
      let cleaned : Stopped (cleanup p).1 = same-Stopped (cleanup-same p) s in
      rw (s.idle, stop_if_serving)
        (elim (Result-cases (cleanup p).0) [
          | inr (e, bad) ↦ rw (bad, ◌>>=◌) (Stopped-Sound (cleanup p).1 cleaned)
          | inl (u, done) ↦ rw (done, ◌>>=◌) (listening-Sound p.socket (cleanup p).1 cleaned)
        ])

  -- A start that succeeds leaves a server that runs.
  start-serving : (p : Plugin k) → Stopped p → (start p).0 ≡ ok tt → (start p).1.serving ≡ true
  unfolding start stop_if_serving make_server
  start-serving p s h = ground (arith, s.idle)

  same-Sound : {p q : Plugin k} → SamePlugin p q → Sound p → Sound q
  same-Sound same s = record {
    open_while_serving = λ h. same.stop ∙ s.open_while_serving (sym same.serving ∙ h);
    calm = same.panicked ∙ s.calm;
  }

  register-same : (request : RegisterRequest) (p : Plugin k) → SamePlugin p (register request p).1
  unfolding register
  register-same request p = record {
    serving = ground arith;
    stop = ground arith;
    panicked = ground arith;
  }

  -- A stop whose error is dropped has not panicked.
  drop_error-lem : (p : Plugin k) → Sound p → drop_error stop_plugin p ≡ (ok tt, (stop_plugin p).1)
  unfolding drop_error
  drop_error-lem p s = rw ((stop_plugin-Stopped p s).calm, drop_error) refl

  -- What a round of the watch leaves: if it succeeds and the socket was not there, a server runs.
  pub record Watched (p : Plugin k) (r : Result (Unit {0}) × Plugin k) : Type 0 where
    pub sound : Sound r.1
    pub back : r.0 ≡ ok tt → (k.stat p.socket p.world).0 ≡ missing → r.1.serving ≡ true

  restart-Sound :
      (p : Plugin k)
      → Sound p
      → Sound (restart p).1 × ((restart p).0 ≡ ok tt → (restart p).1.serving ≡ true)
  unfolding restart
  restart-Sound p s =
      let q : Plugin k = (stop_plugin p).1 in
      let stopped : Stopped q = stop_plugin-Stopped p s in
      let request = request_for resource_name p in
      rw (drop_error-lem p s, ◌>>=◌)
        (elim (Result-cases (start q).0) [
          | inr (e, bad) ↦ rw (bad, ◌>>=◌) (start-Sound q stopped, λ h. absurd (ground (arith, h)))
          | inl (u, done) ↦
              let after : Plugin k = (start q).1 in
              rw (done, ◌>>=◌)
                (
                  same-Sound (register-same request after) (start-Sound q stopped),
                  λ h. (register-same request after).serving ∙ start-serving q stopped done,
                )
        ])

  -- However the kubelet answers, a round of the watch neither panics nor closes a channel twice, and
  -- a server that runs after it has an open channel. If the round succeeds and the socket was gone,
  -- a server runs.
  pub watch_kubelet_restart-Watched : (p : Plugin k) → Sound p → Watched p (watch_kubelet_restart p)
  unfolding watch_kubelet_restart
  watch_kubelet_restart-Watched p s =
      let q : Plugin k = record p { world = (k.stat p.socket p.world).1 } in
      let sound : Sound q = record { open_while_serving = s.open_while_serving; calm = s.calm } in
      elim (Stat-cases (k.stat p.socket p.world).0) [
        | inl found ↦
            rw (found, watch_kubelet_restart)
              (record { sound = sound; back = λ h gone. absurd (cc) })
        | inr (inl gone) ↦
            rw (gone, watch_kubelet_restart)
              (record {
                sound = (restart-Sound q sound).0;
                back = λ h _. (restart-Sound q sound).1 h;
              })
        | inr (inr (e, bad)) ↦
            rw (bad, watch_kubelet_restart) (record { sound = sound; back = λ h gone. absurd (cc) })
      ]

  registered-Sound : (r : Result (Unit {0})) (p : Plugin k) → Sound p → Sound (registered r p).1
  unfolding registered
  registered-Sound (ok u) p s = s
  registered-Sound (err e) p s =
      rw (drop_error-lem p s, ◌>>=◌) (Stopped-Sound (stop_plugin p).1 (stop_plugin-Stopped p s))

  serve-Sound : (name : String) (p : Plugin k) → Stopped p → Sound (serve name p).1
  unfolding serve
  serve-Sound name p s = elim (Result-cases (start p).0) [
    | inr (e, bad) ↦ rw (bad, ◌>>=◌) (start-Sound p s)
    | inl (u, done) ↦
        let request = request_for name p in
        rw (done, ◌>>=◌)
          (registered-Sound (register request (start p).1).0 (register request (start p).1).1
            (same-Sound (register-same request (start p).1) (start-Sound p s)))
  ]

  -- The rounds of the watch, one after the other.
  pub watch_rounds : ℕ → Plugin k → Plugin k
  watch_rounds zero p = p
  watch_rounds (suc n) p = watch_rounds n (watch_kubelet_restart p).1

  watch_rounds-Sound : (n : ℕ) (p : Plugin k) → Sound p → Sound (watch_rounds n p)
  unfolding watch_rounds
  watch_rounds-Sound zero p s = s
  watch_rounds-Sound (suc n) p s =
      watch_rounds-Sound n (watch_kubelet_restart p).1 (watch_kubelet_restart-Watched p s).sound

  abbrev pub watched_for : ℕ → ℕ → String → String → k.World → Plugin k
  watched_for n count name endpoint world =
      watch_rounds n (serve name (new_uni_device_plugin endpoint count world)).1

  -- A plugin that is made, served and then watched for any number of rounds never panics on its stop
  -- channel, and the channel is open while a server runs, whatever the kubelet and the file system
  -- answer; and if the next round succeeds and finds the socket gone, a server runs after it.
  pub watch_rounds-serve :
      (n count : ℕ) (name endpoint : String) (world : k.World)
      → Sound (watched_for n count name endpoint world)
        × Watched
            (watched_for n count name endpoint world)
            (watch_kubelet_restart (watched_for n count name endpoint world))
  unfolding new_uni_device_plugin
  watch_rounds-serve n count name endpoint world =
      let sound : Sound (watched_for n count name endpoint world) =
        watch_rounds-Sound n _ (serve-Sound name _ (record { idle = refl; calm = refl })) in
      (sound, watch_kubelet_restart-Watched _ sound)
