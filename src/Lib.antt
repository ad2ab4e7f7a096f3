-- ===== src/Lib.antt =====
-- A model of the Python code of 3VN Robotics, a small arm and a mobile base on ROS 2: the registry
-- that decides which model runs in production, the gates before it, the node that serves it, the
-- detector that finds the target in an image, the client that commands the arm, the scenarios that
-- test it, the recorder of the data and the training on it, the checks on the printed parts, and the
-- dashboard that says whether the robot is usable.
--
-- The parts and the files that model them:
--
-- Prelude     Lists, association lists and Boolean tests over native numbers and texts.
-- Py          What the code uses of Python. Errors: exceptions as values. Exec: a method is a
--             function from the object to a result and the object after it, so that what was
--             written before a raise stays written. Json: the values of json.loads with the
--             exceptions that a value of another kind raises.
-- Mlops       Gates is src/threevn_mlops/threevn_mlops/gates.py, a function per gate. Registry is
--             registry.py: the directory is a record of the model files, the log, the index and the
--             production pointer, with a definition per method. Cli is cli.py: promote and rollback
--             with their exit codes; promote runs the gates against what is in production and then
--             Registry.promote. Serve is serve.py: the checks on what is in production, which it
--             reads from the Registry, and in Node the callbacks, which use Drift, drift.py, the
--             detector of Perception and the predictors of Ml.
-- Control     Client is src/threevn_control/threevn_control/robot_client.py: the state, the joint
--             limits and the goals that were sent. Scenario is scenarios/base.py: step and execute.
--             Acceptance is acceptance.py and run_scenario.py, which run scenarios against a client
--             and turn the results into a report and an exit code. Arm is scenarios/arm.py over
--             Scenario and Client: the scenarios that are rows of steps, and in Arm/Joints the two
--             that read the joints between their steps. Arm/Sent says what goals a method sends.
-- Data        Dataset is src/threevn_data/threevn_data/dataset.py: the splits by episode
--             and by frame, and load. Duplicates is duplicate_report of the same file. Manifest is
--             validate of manifest.py, and Manifest/Build is git_description and build. Collect is
--             collect.py, the node that records a dataset: its methods over the state of the node,
--             and in Collect/Session its main, which places the target, records the episodes and
--             writes the labels and the manifest. Poses is the parser of what the simulator prints.
-- Navigation  Fusion is src/threevn_navigation/threevn_navigation/fusion.py: the heading from the
--             gyroscope with its bias, and the position along it. Odometry is fused_odom.py, the
--             node that feeds it and publishes the pose.
-- Perception  Detector and Image are src/threevn_perception/threevn_perception/detector.py: the
--             largest region of a mask, and the way from an image buffer to a position. Flood is the
--             flood fill and the search over its starts, for any pixels and neighbours. Target is
--             find_target.py, the node that hands images to the detector.
-- Ml          Features is src/threevn_ml/threevn_ml/features.py and the closed form of models.py,
--             Ridge is the prediction of its fitted model.
--             Train is train.py: the features with their cache, the parts, the two variants, and in
--             Train/Artifact the run and the document that it writes, which the gates of Mlops read.
-- Cad         Profile, Fits, Masses and Printability are the files of cad/threevn_cad with these
--             names: the profile in millimetres, the radii at which parts meet, what the links weigh
--             and which way up a part needs the least support.
-- Dashboard   RobotState is src/threevn_dashboard/threevn_dashboard/robot_state.py: what the robot
--             last said, and readiness. Version is version.py. Push is fleet_reporter.py and
--             otlp_metrics.py, the threads that push; Payload and Metrics are what they push, made
--             from the dict of a snapshot. Node is dashboard_node.py, whose callbacks keep the robot
--             state and which hands it to the pushers. Http is http_server.py, which answers from it.
--
-- A function keeps the name that it has in the source, or one close to it. The children of a module
-- hold the theorems, named for what they are about, and Samples runs the definitions on small inputs.
--
-- Conventions. Floating-point numbers are any type with the operations of Number in Py/Json;
-- theorems that need a law of them take it as a hypothesis, and no law is built in. Their quotient
-- is total; where the code divides by a focal length, and in the training, the ZeroDivisionError of
-- Python is modelled. Times in the
-- dashboard and in scenarios are whole milliseconds. What lies outside of the source is an
-- argument: clock readings, the digest of a file, the messages that ROS delivers while a method
-- spins, the answer of an action server, the transforms of tf2, the answer of urlopen, what
-- cv2.imwrite returns, np.array, the shuffle of random, the products of a length with a ratio, and
-- pi, square roots, sine, cosine, tangent, distances and the operator % on floating-point numbers. So are the text that the simulator's
-- command line prints, the output of git, json.dumps and json.loads, numpy's solver and statistics,
-- and what the geometry kernel says of a face or of the volume of a part. Sentences in results and
-- exceptions are values of a data type that carries what the sentence names. The lock of RobotState is the
-- atomicity of a method. A numpy array is its shape and a function of the indices. Loops are
-- recursions over a list or a count: the messages that arrive, the turns of a thread until its time
-- is over, the rounds that a clock gives a wait, the frames of an episode, the scenarios that are
-- asked for. The flood fill alone has fuel, one for each pixel of the mask
-- that is set, which is enough because each round pops a pixel and a pixel is pushed once.
--
-- Not modelled: printing and argument parsing, the text of reports, ROS wiring, the arithmetic of
-- numpy in the fitting and scoring of models, the trigonometry of the arm, the solids that the CAD
-- builds and exports, launch files, and the code in C++ and Go. The command-line arguments of the
-- recorder and of the training are numbers and texts of the right kind, and a count of episodes or
-- of frames is not negative.
pub mod Prelude
pub mod Py
pub mod Data
pub mod Mlops
pub mod Navigation
pub mod Perception
pub mod Ml
pub mod Dashboard
pub mod Control
pub mod Cad
