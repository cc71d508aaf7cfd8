-- ===== src/Worker/Functions.antt =====
-- async/include/Task.hpp and async/src/Task.cpp: a task with any three functions. The functions share
-- the worker's headers and body, the clients of the task, and the world outside.
use technopark_highload.Client.{HttpClient}
use technopark_highload.Dict.{Dict}
use technopark_highload.Prelude.{Bool, none, some, Bytes}
use technopark_highload.Prelude.Int.{ℤ}
use technopark_highload.Result.{Result, ok, err, undefined_behaviour}
use technopark_highload.Socket.Receive.{has_data}

module _ (World : Type 0) where
  pub record Scene : Type 0 where
    pub headers : Dict
    pub body : Bytes
    pub input : HttpClient
    pub output : HttpClient
    pub world : World

  -- `MainFuncType`, `PreFuncType` and `PostFuncType`
  abbrev pub MainFunc : Type 0
  MainFunc = Scene → Result Scene

  abbrev pub PreFunc : Type 0
  PreFunc = Scene → Result (MainFunc × Scene)

  abbrev pub PostFunc : Type 0
  PostFunc = Scene → Result Scene

  pub record AnyTask : Type 0 where
    pub pre_func : PreFunc
    pub main_func : MainFunc
    pub post_func : PostFunc
    pub input : HttpClient
    pub output : HttpClient

  unfoldable pub set_pre_func : PreFunc → AnyTask → AnyTask
  set_pre_func f t = record t { pre_func = f }

  unfoldable pub set_main_func : MainFunc → AnyTask → AnyTask
  set_main_func f t = record t { main_func = f }

  unfoldable pub set_post_func : PostFunc → AnyTask → AnyTask
  set_post_func f t = record t { post_func = f }

  unfoldable pub set_input : HttpClient → AnyTask → AnyTask
  set_input client t = record t { input = client }

  unfoldable pub set_output : HttpClient → AnyTask → AnyTask
  set_output client t = record t { output = client }

  -- `HasData`, by what `FIONREAD` counts; a client without a socket is asked through a null pointer
  unfoldable pub task_has_data : ℤ → AnyTask → Result Bool
  unfolding has_data
  task_has_data count t = elim t.input.socket [
    | none ↦ err undefined_behaviour
    | some _ ↦ ok (has_data count)
  ]
